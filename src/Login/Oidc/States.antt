-- ===== src/Login/Oidc/States.antt =====
-- The states of the authorization-code flow: each is accepted once, and only while it is live.
use ocspcrltesting.Schema.{User, WorkspaceMember, Db}
use ocspcrltesting.Settings.{Settings, oidc_enabled}
use ocspcrltesting.Login.Oidc.{
  States, is_state, expired, Claims, account_for, synced, provisioned, after_exchange, with_state,
  oidc_callback,
}
use ocspcrltesting.Prelude.{
  ℕ, String, ◌≡◌, refl, sym, ◌∙◌, subst, Bool, true, false, not, ◌&&◌, Option, none, some, List, [],
  ◌∷◌, arith, Bool-cases, inl, inr, any, delete, http_error, Result, ok, err,
}

any-delete_own : (p : String × ℕ → Bool) (states : States) → any p (delete p states) ≡ false
any-delete_own p [] = refl
any-delete_own p (s ∷ states) = ground (arith, any-delete_own p states)

any-delete_le :
    (p hit : String × ℕ → Bool) (states : States)
    → any p states ≡ false
    → any p (delete hit states) ≡ false
any-delete_le p hit [] h = refl
any-delete_le p hit (s ∷ states) h = ground (arith, h, any-delete_le p hit states)

synced-states :
    (states : States) (found : User × Db) (r : Result (List WorkspaceMember))
    → (synced states found r).1.0 ≡ states
synced-states states (user, db) (err e) = refl
synced-states states (user, db) (ok members) = refl

provisioned-states :
    (states : States) (claims : Claims) (db : Db) (r : Result (User × Db))
    → (provisioned states claims db r).1.0 ≡ states
provisioned-states states claims db (err e) = refl
provisioned-states states claims db (ok (user, db')) = synced-states states (user, db') _

after_exchange-states :
    (new_id new_ws clock : ℕ) (states : States) (db : Db) (exchange : Option Claims)
    → (after_exchange new_id new_ws clock states db exchange).1.0 ≡ states
after_exchange-states new_id new_ws clock states db none = refl
after_exchange-states new_id new_ws clock states db (some claims) =
    provisioned-states states claims db (account_for new_id new_ws clock claims db)

with_state-gone :
    (exchange : Option Claims) (new_id new_ws clock : ℕ) (state : String) (states : States)
    (db : Db) (known : Bool)
    → any (is_state state) states ≡ known
    → any (is_state state) (with_state exchange new_id new_ws clock state states db known).1.0
      ≡ false
with_state-gone exchange new_id new_ws clock state states db false h = h
with_state-gone exchange new_id new_ws clock state states db true h =
    subst (λ ss. any (is_state state) ss ≡ false)
      (sym (after_exchange-states new_id new_ws clock (delete (is_state state) states) db exchange))
      (any-delete_own (is_state state) states)

-- With OIDC enabled, after a callback with a state, whatever came of it, another callback with
-- that state and the states that are left is refused with 400 at any time and changes no table.
pub oidc_callback_once :
    (settings : Settings) (exchange exchange' : Option Claims)
    (new_id new_ws now clock new_id' new_ws' now' clock' : ℕ) (state : String) (states : States)
    (db : Db)
    → oidc_enabled settings ≡ true
    → ((oidc_callback settings exchange' new_id' new_ws' now' clock' state
          (oidc_callback settings exchange new_id new_ws now clock state states db).1.0
          (oidc_callback settings exchange new_id new_ws now clock state states db).1.1).0
        ≡ err (http_error 400))
      × ((oidc_callback settings exchange' new_id' new_ws' now' clock' state
            (oidc_callback settings exchange new_id new_ws now clock state states db).1.0
            (oidc_callback settings exchange new_id new_ws now clock state states db).1.1).1.1
          ≡ (oidc_callback settings exchange new_id new_ws now clock state states db).1.1)
unfolding oidc_callback
oidc_callback_once settings exchange exchange' new_id new_ws now clock new_id' new_ws' now' clock'
      state states db on =
    let live = delete (expired now) states in
    let first = with_state exchange new_id new_ws clock state live db (any (is_state state) live) in
    let gone = with_state-gone exchange new_id new_ws clock state live db _ refl in
    let later : any (is_state state) (delete (expired now') first.1.0) ≡ false =
      any-delete_le (is_state state) (expired now') first.1.0 gone in
    rw (on, later) (refl, refl)

-- A state that was made no longer ago than its time to live.
abbrev pub is_live : ℕ → String → String × ℕ → Bool
is_live now state entry = is_state state entry && not (expired now entry)

live_state :
    (now : ℕ) (state : String) (states : States)
    → any (is_state state) (delete (expired now) states) ≡ any (is_live now state) states
live_state now state [] = refl
live_state now state (s ∷ states) = ground (arith, live_state now state states)

refused_unknown :
    (exchange : Option Claims) (new_id new_ws clock : ℕ) (state : String) (states : States)
    (db : Db) (known : Bool) (user : User)
    → (with_state exchange new_id new_ws clock state states db known).0 ≡ ok user
    → known ≡ true
refused_unknown exchange new_id new_ws clock state states db false user h = absurd (cc h)
refused_unknown exchange new_id new_ws clock state states db true user h = refl

-- A callback that succeeds came while OIDC is enabled, with a state that was made no longer ago than
-- its time to live.
pub oidc_callback_live :
    (settings : Settings) (exchange : Option Claims) (new_id new_ws now clock : ℕ) (state : String)
    (states : States) (db : Db) (user : User)
    → (oidc_callback settings exchange new_id new_ws now clock state states db).0 ≡ ok user
    → (oidc_enabled settings ≡ true) × (any (is_live now state) states ≡ true)
unfolding oidc_callback
oidc_callback_live settings exchange new_id new_ws now clock state states db user h =
    elim (Bool-cases (oidc_enabled settings)) [
      | inl on ↦
          let known =
            refused_unknown exchange new_id new_ws clock state (delete (expired now) states) db _
              user (rw on at h) in
          (on, sym (live_state now state states) ∙ known)
      | inr off ↦ absurd (cc (rw off at h))
    ]
