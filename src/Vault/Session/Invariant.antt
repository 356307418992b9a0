-- ===== src/Vault/Session/Invariant.antt =====
-- What holds of a vault between calls, and that every operation keeps it.
use harbour_leyni.Prelude.{
  either, zero, suc, ◌≤◌, ◌≡◌, refl, sym, subst, ◌&&◌, arith, Bool, true, false, not, Bool-cases,
  List, [], ◌∷◌, ◌⊎◌, inl, inr, Bytes, bytes_equal, is_empty, All, if◌then◌else◌, ok, >>=-eq-ok,
  Result-cases,
}
use harbour_leyni.Crypto.Primitives.{Primitives}
use harbour_leyni.Crypto.Keys.{SymmetricKey, IsKey, symmetric_key_from_bytes_sound}
use harbour_leyni.Crypto.EncString.{parse}
use harbour_leyni.Crypto.Cipher.{decrypt_rsa_oaep_sha1}
use harbour_leyni.Vault.Json.{ℤ, pos, negsuc}
use harbour_leyni.Vault.Int.{mul_int, is_positive}
use harbour_leyni.Vault.Qt.{Qt}
use harbour_leyni.Vault.Items.{Organization}
use harbour_leyni.Vault.Maps.{emplace}
use harbour_leyni.Vault.State.{
  Vault, no_key, new_vault, lock, can_start, set_auto_lock_seconds, note_activity, timeout,
}
use harbour_leyni.Vault.Display.{
  rebuild_private_key, unwrap_org_key, add_org_keys, rebuild_org_keys, add_folder_names,
  display_items, rebuild_display_data,
}

-- No key and nothing decrypted is in memory, and the timer does not run.
pub record IsSealed (v : Vault) : Type 0 where
  pub is_locked : v.locked ≡ true
  pub no_user_key : v.user_key ≡ no_key
  pub no_private_key : v.private_key_der ≡ []
  pub no_org_keys : v.org_keys ≡ []
  pub no_items : v.items ≡ []
  pub no_folder_names : v.folder_names ≡ []
  pub stopped : v.timer_active ≡ false

abbrev pub AreKeys : List (Bytes × SymmetricKey) → Type 0
AreKeys = All (λ entry. IsKey entry.1)

-- A timer with an interval above 0 runs, one with a negative interval does not.
abbrev pub TimerFits : ℤ → Bool → Type 0
TimerFits (pos zero) active = Unit
TimerFits (pos (suc n)) active = active ≡ true
TimerFits (negsuc n) active = active ≡ false

-- The keys are well sized, and the timer fits its interval.
pub record IsOpen (v : Vault) : Type 0 where
  pub not_locked : v.locked ≡ false
  pub user_key-IsKey : IsKey v.user_key
  pub org_keys-AreKeys : AreKeys v.org_keys
  pub timed : TimerFits v.timer_interval v.timer_active

-- The signals, latest first, tell each change once; the last one tells the present state.
abbrev pub Alternates : Bool → List Bool → Type 0
Alternates true [] = Unit
Alternates false [] = 1 ≤ 0
Alternates now (b ∷ rest) = (b ≡ now) × Alternates (not now) rest

pub record IsVault (v : Vault) : Type 0 where
  pub state : IsSealed v ⊎ IsOpen v
  pub signals : Alternates v.locked v.emitted

pub new_vault-IsVault : IsVault new_vault
new_vault-IsVault = record {
  state = inl (record {
    is_locked = refl;
    no_user_key = refl;
    no_private_key = refl;
    no_org_keys = refl;
    no_items = refl;
    no_folder_names = refl;
    stopped = refl;
  });
  signals = tt;
}

pub lock-IsSealed : (v : Vault) → IsSealed (lock v)
unfolding lock
lock-IsSealed v = record {
  is_locked = refl;
  no_user_key = refl;
  no_private_key = refl;
  no_org_keys = refl;
  no_items = refl;
  no_folder_names = refl;
  stopped = refl;
}

lock_signals :
    (locked : Bool) (emitted : List Bool)
    → Alternates locked emitted
    → Alternates true (if locked then emitted else true ∷ emitted)
lock_signals true emitted h = h
lock_signals false emitted h = (refl, h)

pub lock-Alternates : (v : Vault) → Alternates v.locked v.emitted → Alternates true (lock v).emitted
unfolding lock
lock-Alternates v h = lock_signals v.locked v.emitted h

pub lock-IsVault : (v : Vault) → Alternates v.locked v.emitted → IsVault (lock v)
lock-IsVault v h = record {
  state = inl (lock-IsSealed v);
  signals =
      subst (λ (b : Bool). Alternates b (lock v).emitted) (sym (lock-IsSealed v).is_locked)
        (lock-Alternates v h);
}

pub timeout-IsVault : (v : Vault) → IsVault v → IsVault (timeout v)
unfolding timeout
timeout-IsVault v h = either IsVault v.timer_active (λ e. lock-IsVault v h.signals) (λ e. h)

emplace-AreKeys :
    (org_keys : List (Bytes × SymmetricKey)) (id : Bytes) (key : SymmetricKey)
    → AreKeys org_keys
    → IsKey key
    → AreKeys (emplace org_keys id key)
unfolding emplace
emplace-AreKeys [] id key h k = (k, tt)
emplace-AreKeys ((i, w) ∷ entries) id key h k = elim (Bool-cases (bytes_equal i id)) [
  | inl e ↦ rw e h
  | inr e ↦ rw e (h.0, emplace-AreKeys entries id key h.1 k)
]

ok-injective {ℓ} : {A : Type ℓ} {x y : A} → ok x ≡ ok y → x ≡ y
ok-injective h = cc

module _ (p : Primitives) where
  unwrap_org_key-IsKey :
      (org : Organization) (der : Bytes) {key : SymmetricKey}
      → unwrap_org_key p org der ≡ ok key
      → IsKey key
  unfolding unwrap_org_key
  unwrap_org_key-IsKey org der h =
      let (enc, he, h1) = >>=-eq-ok (parse org.key) _ h in
      let (raw, hr, h2) = >>=-eq-ok (decrypt_rsa_oaep_sha1 p enc der) _ h1 in
      (symmetric_key_from_bytes_sound raw h2).0

  add_org_keys-AreKeys :
      (orgs : List Organization) (der : Bytes) (org_keys : List (Bytes × SymmetricKey))
      → AreKeys org_keys
      → AreKeys (add_org_keys p orgs der org_keys)
  unfolding add_org_keys
  add_org_keys-AreKeys [] der org_keys h = h
  add_org_keys-AreKeys (org ∷ orgs) der org_keys h =
      elim (Result-cases (unwrap_org_key p org der)) [
        | inl (key, e) ↦ rw e (
            add_org_keys-AreKeys orgs der (emplace org_keys org.id key)
              (emplace-AreKeys org_keys org.id key h (unwrap_org_key-IsKey org der e)))
        | inr (thrown, e) ↦ rw e (add_org_keys-AreKeys orgs der org_keys h)
      ]

  rebuild_org_keys-AreKeys : (v : Vault) → AreKeys v.org_keys → AreKeys (rebuild_org_keys p v)
  unfolding rebuild_org_keys
  rebuild_org_keys-AreKeys v h = elim (Bool-cases (is_empty v.private_key_der)) [
    | inl e ↦ rw e h
    | inr e ↦ rw e (add_org_keys-AreKeys v.sync_data.organizations v.private_key_der v.org_keys h)
  ]

  -- What the rebuilding of the display data leaves alone.
  pub record IsRebuilt (v w : Vault) : Type 0 where
    pub same_data : w.sync_data ≡ v.sync_data
    pub same_lock : w.locked ≡ v.locked
    pub same_key : w.user_key ≡ v.user_key
    pub same_interval : w.timer_interval ≡ v.timer_interval
    pub same_timer : w.timer_active ≡ v.timer_active
    pub same_signals : w.emitted ≡ v.emitted
    pub keys : AreKeys w.org_keys

  pub rebuild_display_data-IsRebuilt :
      (qt : Qt) (v : Vault) {w : Vault}
      → AreKeys v.org_keys
      → rebuild_display_data p qt v ≡ ok w
      → IsRebuilt v w
  unfolding rebuild_display_data
  rebuild_display_data-IsRebuilt qt v {w} h e =
      let (der, hd, e1) = >>=-eq-ok (rebuild_private_key p v) _ e in
      let with_der = record v { private_key_der = der } in
      let (names, hn, e2) = >>=-eq-ok (add_folder_names p qt _ _ _) _ e1 in
      let (items, hi, e3) = >>=-eq-ok (display_items p qt _ _) _ e2 in
      subst (IsRebuilt v) (ok-injective e3) (record {
        same_data = refl;
        same_lock = refl;
        same_key = refl;
        same_interval = refl;
        same_timer = refl;
        same_signals = refl;
        keys = rebuild_org_keys-AreKeys with_der h;
      })

-- A change of the timer that fits the lock.
retimed-IsVault :
    (v : Vault) (interval : ℤ) (active : Bool)
    → IsVault v
    → (v.locked ≡ true → active ≡ false)
    → (v.locked ≡ false → TimerFits interval active)
    → IsVault (record v { timer_interval = interval; timer_active = active })
retimed-IsVault v interval active h stays runs = record {
  state = elim h.state [
    | inl s ↦ inl (record {
      is_locked = s.is_locked;
      no_user_key = s.no_user_key;
      no_private_key = s.no_private_key;
      no_org_keys = s.no_org_keys;
      no_items = s.no_items;
      no_folder_names = s.no_folder_names;
      stopped = stays s.is_locked;
    })
    | inr o ↦ inr (record {
      not_locked = o.not_locked;
      user_key-IsKey = o.user_key-IsKey;
      org_keys-AreKeys = o.org_keys-AreKeys;
      timed = runs o.not_locked;
    })
  ];
  signals = h.signals;
}

locked-stopped : (v : Vault) → IsVault v → v.locked ≡ true → v.timer_active ≡ false
locked-stopped v h e = elim h.state [ inl s ↦ s.stopped | inr o ↦ absurd (cc (e, o.not_locked)) ]

can_start-TimerFits : (interval : ℤ) → TimerFits interval (can_start interval)
can_start-TimerFits (pos zero) = tt
can_start-TimerFits (pos (suc n)) = refl
can_start-TimerFits (negsuc n) = refl

pub positive-TimerFits : (interval : ℤ) → is_positive interval ≡ true → TimerFits interval true
positive-TimerFits (pos zero) e = tt
positive-TimerFits (pos (suc n)) e = refl
positive-TimerFits (negsuc n) e = cc e

-- A timer that stands is started for an interval above 0 only.
pub started-TimerFits :
    (interval : ℤ) (active : Bool)
    → active ≡ false
    → TimerFits interval (if is_positive interval then true else active)
started-TimerFits (pos zero) active e = tt
started-TimerFits (pos (suc n)) active e = ground arith
started-TimerFits (negsuc n) active e = e

pub set_auto_lock_seconds-IsVault :
    (seconds : ℤ) (v : Vault) → IsVault v → IsVault (set_auto_lock_seconds seconds v)
unfolding set_auto_lock_seconds
set_auto_lock_seconds-IsVault seconds v h =
    let interval = mul_int seconds 1000 in
    either IsVault (is_positive seconds)
      (λ some_seconds.
        retimed-IsVault v interval (if v.locked then v.timer_active else can_start interval) h
          (λ e. ground (arith, e, locked-stopped v h e)) (λ e. rw e (can_start-TimerFits interval)))
      (λ none_given. retimed-IsVault v (pos 0) false h (λ e. refl) (λ e. tt))

pub note_activity-IsVault : (v : Vault) → IsVault v → IsVault (note_activity v)
unfolding note_activity
note_activity-IsVault v h =
    either IsVault (not v.locked && is_positive v.timer_interval)
      (λ counts.
        retimed-IsVault v v.timer_interval true h (λ e. absurd (ground (arith, e, counts)))
          (λ e. positive-TimerFits v.timer_interval (ground (arith, e, counts))))
      (λ ignored. h)
