-- ===== src/Auth/Sessions/Bounds.antt =====
-- The number of sessions that `create_session` leaves to a user.
use layerscope.Base.{
  ℕ, zero, suc, ◌-◌, ◌≤◌, ◌≡◌, Bool, true, not, ◌||◌, List, [], ◌∷◌, ==_refl, length, drop, select,
  member, arith,
}
use layerscope.Config.{Settings}
use layerscope.Models.{Time, AuthSession, AuthLevel}
use layerscope.Auth.{AuthDb, Request, Draw, Crypto}
use layerscope.Auth.Sessions.{
  create_session, prune_sessions, by_newest, insert_newest, session_ids, owned, is_live,
}

length-select-insert_newest :
    (q : AuthSession → Bool) (s : AuthSession) (t : List AuthSession)
    → length (select q (insert_newest s t)) ≡ length (select q (s ∷ t))
unfolding insert_newest
length-select-insert_newest q s [] = ground arith
length-select-insert_newest q s (r ∷ t) = ground (arith, length-select-insert_newest q s t)

length-select-by_newest :
    (q : AuthSession → Bool) (t : List AuthSession)
    → length (select q (by_newest t)) ≡ length (select q t)
unfolding by_newest
length-select-by_newest q [] = ground arith
length-select-by_newest q (s ∷ t) =
    ground (arith, length-select-insert_newest q s (by_newest t), length-select-by_newest q t)

module _ {A : Type 0} (p q : A → Bool) where
  length-select-swap :
      (l : List A) → length (select p (select q l)) ≡ length (select q (select p l))
  length-select-swap [] = ground arith
  length-select-swap (x ∷ l) = ground (arith, length-select-swap l)

-- A session that is not among the dropped ones.
abbrev spared : List ℕ → AuthSession → Bool
spared gone s = not (member s.id gone)

none_spared :
    (gone : List ℕ) (l : List AuthSession)
    → ((j : ℕ) → member j (session_ids l) ≡ true → member j gone ≡ true)
    → length (select (spared gone) l) ≡ 0
none_spared gone [] h = ground arith
none_spared gone (s ∷ l) h =
    ground (arith, h s.id, ==_refl s.id, none_spared gone l (λ j e. h j (ground (arith, e))))

few_spared :
    (n : ℕ) (gone : List ℕ) (l : List AuthSession)
    → ((j : ℕ) → member j (drop n (session_ids l)) ≡ true → member j gone ≡ true)
    → length (select (spared gone) l) ≤ n
few_spared zero gone l h = ground (arith, none_spared gone l h)
few_spared (suc n) gone [] h = ground arith
few_spared (suc n) gone (s ∷ l) h = ground (arith, few_spared n gone l h)

module _ (c : Settings) (k : Crypto) (r : Request) (d : Draw) (user_id : ℕ) where
  prune_sessions-bounded :
      (now : Time) (l : List AuthSession)
      → length (select (owned user_id) (prune_sessions c user_id now l))
        ≤ c.auth_max_sessions_per_user - 1
  unfolding prune_sessions
  prune_sessions-bounded now l =
      let kept = select (λ (s : AuthSession). not (owned user_id s) || is_live now s) l in
      let mine = select (owned user_id) kept in
      let n = c.auth_max_sessions_per_user - 1 in
      let gone = drop n (session_ids (by_newest mine)) in
      ground (
        arith,
        length-select-swap (owned user_id) (spared gone) kept,
        length-select-by_newest (spared gone) mine,
        few_spared n gone (by_newest mine) (λ j e. e),
      )

  -- After a sign-in, the user's sessions are at most the settings' maximum, whatever they were.
  pub create_session-bounded :
      (level : AuthLevel) (lifetime : Time) (db : AuthDb)
      → 1 ≤ c.auth_max_sessions_per_user
      → length (select (owned user_id) (create_session c k r d user_id level lifetime db).sessions)
        ≤ c.auth_max_sessions_per_user
  unfolding create_session
  create_session-bounded level lifetime db h =
      ground (arith, prune_sessions-bounded r.now db.sessions, ==_refl user_id)
