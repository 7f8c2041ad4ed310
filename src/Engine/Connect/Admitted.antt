-- ===== src/Engine/Connect/Admitted.antt =====
-- Which CONNECT packets pass the checks of `handleConnect`.
use pgmqtt.Prelude.{
  ℕ, ◌≤◌, ◌≡◌, ◌≢◌, refl, ◌↔◌, ◌⊎◌, ap, ◌∙◌, inl, inr, Bool, true, false, not, ◌&&◌, Option, none,
  some, [], ◌∷◌, arith, Bytes, is_empty, length, leb, ◌==◌, Bool-cases,
}
use pgmqtt.Wire.Properties.{Outcome, connect_maximum_packet_size}
use pgmqtt.Wire.Properties as Properties
use pgmqtt.Engine.Inbound.{mqtt5}
use pgmqtt.Engine.Session.{or_zero}
use pgmqtt.Engine.Connect.{
  Connect, Policy, UserRow, hash, query_failed, no_rows, Compare, login_of, Refusal, reason,
  malformed, Checked, pass, refuse, ◌>>=◌, guard, is_version, is_nonzero, client_of, logged_in,
  login, present_size, sizes, checks,
}

-- The client id of the connection: the client's own, or a made-up one for a session that ends with it.
abbrev pub Named : Bytes → Connect → Bytes → Type 0
Named made_up pk client =
    ((pk.client ≢ []) × (client ≡ pk.client))
    ⊎ ((pk.client ≡ [])
        × (client ≡ made_up)
        × (pk.clean ≡ true)
        × (pk.version ≡ 5 → or_zero pk.session_expiry ≡ 0))

abbrev pub Known : Policy → Compare → (Bytes → UserRow) → Connect → Type 0
Known p compares users pk =
    ((pk.username ≡ []) × (p.allow_anonymous ≡ true))
    ⊎ ((pk.username ≢ [])
        × ((h : Bytes) × (users pk.username ≡ hash h) × (compares h pk.password ≡ true)))

abbrev pub Sized : Outcome → Type 0
Sized o = (o ≡ Properties.absent) ⊎ ((n : ℕ) × (o ≡ Properties.present n) × (n ≢ 0))

-- The rules that a CONNECT has to meet, each on its own.
pub record IsAdmissible (p : Policy) (compares : Compare) (users : Bytes → UserRow)
    (made_up : Bytes) (pk : Connect) (client : Bytes) : Type 0 where
  pub valid : pk.valid ≡ true
  pub version : (pk.version ≡ 4) ⊎ (pk.version ≡ 5)
  pub named : Named made_up pk client
  pub short : length client ≤ 256
  pub plain : pk.version ≡ 5 → pk.auth_method ≡ []
  pub known : Known p compares users pk
  pub sized : pk.version ≡ 5 → Sized (connect_maximum_packet_size pk.body)

-- Inversion of a successful bind.
pass-bind {ℓ κ} :
    {A : Type ℓ} {B : Type κ} (m : Checked A) (f : A → Checked B) {b : B}
    → (m >>= f) ≡ pass b
    → (a : A) × (m ≡ pass a) × (f a ≡ pass b)
pass-bind (pass a) f h = (a, refl, h)
pass-bind (refuse r) f h = cc

pass-guard : (b : Bool) (r : Refusal) (x : Unit {0}) → guard b r ≡ pass x → b ≡ true
pass-guard true r x h = refl
pass-guard false r x h = cc

is_empty_iff : (xs : Bytes) → (is_empty xs ≡ true) ↔ (xs ≡ [])
is_empty_iff [] = (λ h. refl, λ h. refl)
is_empty_iff (x ∷ xs) = (λ h. cc, λ h. cc)

is_nonzero_iff : (o : Option ℕ) → (is_nonzero o ≡ false) ↔ (or_zero o ≡ 0)
is_nonzero_iff none = (λ h. refl, λ h. refl)
is_nonzero_iff (some n) = ground arith

client_of_iff :
    (made_up : Bytes) (pk : Connect) (client : Bytes)
    → (client_of made_up pk ≡ pass client) ↔ Named made_up pk client
client_of_iff made_up pk client =
    ground (arith, is_empty_iff pk.client, is_nonzero_iff pk.session_expiry)

abbrev Granted : Compare → Bytes → UserRow → Type 0
Granted compares password r = (h : Bytes) × (r ≡ hash h) × (compares h password ≡ true)

login_of_iff :
    (compares : Compare) (password : Bytes) (r : UserRow)
    → (logged_in (login_of compares password r) ≡ pass tt) ↔ Granted compares password r
login_of_iff compares password query_failed = (λ h. cc, λ (k, e, c). cc e)
login_of_iff compares password no_rows = (λ h. cc, λ (k, e, c). cc e)
login_of_iff compares password (hash k) = elim (Bool-cases (compares k password)) [
  | inl e ↦ (λ h. (k, refl, e), λ h. rw e refl)
  | inr e ↦ (λ h. ground (arith, e), λ (h, f, c). cc (e, f, c))
]

login_iff :
    (p : Policy) (compares : Compare) (users : Bytes → UserRow) (pk : Connect)
    → (login p compares users pk ≡ pass tt) ↔ Known p compares users pk
login_iff p compares users pk =
    ground (arith, is_empty_iff pk.username, login_of_iff compares pk.password (users pk.username))

present_size_iff : (o : Outcome) → (present_size o ≡ pass tt) ↔ Sized o
present_size_iff (Properties.present n) = ground arith
present_size_iff Properties.absent = (λ h. inl refl, λ h. refl)
present_size_iff (Properties.failed e) = ground arith
present_size_iff Properties.panic = ground arith
present_size_iff Properties.out_of_fuel = ground arith

sizes_iff :
    (pk : Connect)
    → (sizes pk ≡ pass tt) ↔ (pk.version ≡ 5 → Sized (connect_maximum_packet_size pk.body))
sizes_iff pk = ground (arith, present_size_iff (connect_maximum_packet_size pk.body))

is_version_iff : (v : ℕ) → (is_version v ≡ true) ↔ ((v ≡ 4) ⊎ (v ≡ 5))
is_version_iff v = ground arith

plain_iff :
    (v : ℕ) (auth : Bytes) → (not (v == mqtt5 && not (is_empty auth)) ≡ true) ↔ (v ≡ 5 → auth ≡ [])
plain_iff v auth = ground (arith, is_empty_iff auth)

fits : (n : ℕ) → n ≤ 256 → leb n 256 ≡ true
fits n h = ground arith

-- A CONNECT passes the checks of `handleConnect`, under a client id, if and only if it meets each of the rules.
pub checks_iff :
    (p : Policy) (compares : Compare) (users : Bytes → UserRow) (made_up : Bytes) (pk : Connect)
    (client : Bytes)
    → (checks p compares users made_up pk ≡ pass client)
      ↔ IsAdmissible p compares users made_up pk client
unfolding checks
checks_iff p compares users made_up pk client = (passes, admits)
  where
    passes :
        checks p compares users made_up pk ≡ pass client
        → IsAdmissible p compares users made_up pk client
    passes h =
        let (_, valid, h1) = pass-bind (guard pk.valid malformed) _ h in
        let (_, version, h2) = pass-bind (guard (is_version pk.version) (reason 0x84)) _ h1 in
        let (c, named, h3) = pass-bind (client_of made_up pk) _ h2 in
        let (_, short, h4) = pass-bind (guard (leb (length c) 256) (reason 0x85)) _ h3 in
        let (_, plain, h5) =
          pass-bind
            (guard (not (pk.version == mqtt5 && not (is_empty pk.auth_method))) (reason 0x8C)) _
            h4 in
        let (_, known, h6) = pass-bind (login p compares users pk) _ h5 in
        let (_, sized, h7) = pass-bind (sizes pk) _ h6 in
        let e : c ≡ client = cc h7 in
        record {
          valid = pass-guard _ _ _ valid;
          version = (is_version_iff pk.version).0 (pass-guard _ _ _ version);
          named = (client_of_iff made_up pk client).0 (named ∙ ap pass e);
          short = ground (arith, pass-guard _ _ _ short, e);
          plain = (plain_iff pk.version pk.auth_method).0 (pass-guard _ _ _ plain);
          known = (login_iff p compares users pk).0 known;
          sized = (sizes_iff pk).0 sized;
        }

    admits :
        IsAdmissible p compares users made_up pk client
        → checks p compares users made_up pk ≡ pass client
    admits a =
        rw
          (
            a.valid,
            (is_version_iff pk.version).1 a.version,
            (client_of_iff made_up pk client).1 a.named,
            fits _ a.short,
            (plain_iff pk.version pk.auth_method).1 a.plain,
            (login_iff p compares users pk).1 a.known,
            (sizes_iff pk).1 a.sized,
          )
          refl
