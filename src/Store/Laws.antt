-- ===== src/Store/Laws.antt =====
-- Taking a transaction that returned apart into its steps.
use license_srv.Prelude.{◌≡◌, refl, ap}
use license_srv.Prelude.{◌⊎◌, inl, inr, Bool, true, false, ℕ}
use license_srv.Store.Rows.{Db}
use license_srv.Store.Transaction.{
  Tx, Code, Result, ok, err, refuse_if, commit, with_tenant, go_on, and_then, Service, Failure,
  ◌>>=◌, ◌>>◌,
}

bind_result :
    {A B : Type 0} (r : Result (A × Db)) (f : A → Tx B) {b : B} {db' : Db}
    → ◌≡◌ {A = Result (B × Db)} (elim r [ ok p ↦ f p.0 p.1 | err e ↦ err e ]) (ok (b, db'))
    → (a : A) × (mid : Db) × (r ≡ ok (a, mid)) × (f a mid ≡ ok (b, db'))
bind_result (ok (a, mid)) f h = (a, mid, refl, h)
bind_result (err x) f h = cc

seq_result :
    {B : Type 0} (r : Result (Unit {0} × Db)) (k : Tx B) {b : B} {db' : Db}
    → ◌≡◌ {A = Result (B × Db)} (elim r [ ok p ↦ k p.1 | err e ↦ err e ]) (ok (b, db'))
    → (u : Unit {0}) × (mid : Db) × (r ≡ ok (u, mid)) × (k mid ≡ ok (b, db'))
seq_result (ok (u, mid)) k h = (u, mid, refl, h)
seq_result (err x) k h = cc

pub >>-eq-ok :
    {B : Type 0} (m : Tx (Unit {0})) (k : Tx B) (db : Db) {b : B} {db' : Db}
    → (m >> k) db ≡ ok (b, db')
    → (u : Unit {0}) × (mid : Db) × (m db ≡ ok (u, mid)) × (k mid ≡ ok (b, db'))
>>-eq-ok m k db h = seq_result (m db) k h

module _ {A B : Type 0} (m : Tx A) (f : A → Tx B) (db : Db) where
  -- The intermediate result and tables of a transaction that returned.
  pub >>=-eq-ok :
      {b : B} {db' : Db}
      → (m >>= f) db ≡ ok (b, db')
      → (a : A) × (mid : Db) × (m db ≡ ok (a, mid)) × (f a mid ≡ ok (b, db'))
  >>=-eq-ok h = bind_result (m db) f h

pub refuse_if-eq-ok :
    (c : Bool) (code : Code) (status : ℕ) (db : Db) {u : Unit {0}} {db' : Db}
    → refuse_if c code status db ≡ ok (u, db')
    → (c ≡ false) × (db' ≡ db)
refuse_if-eq-ok true code status db e = cc
refuse_if-eq-ok false code status db e = (refl, cc)

module _ {A : Type 0} (db : Db) where
  commit-eq-ok :
      (r : Result (A × Db)) {a : A} {db' : Db} → commit db r ≡ (ok a, db') → r ≡ ok (a, db')
  unfolding commit
  commit-eq-ok (ok r) h = cc
  commit-eq-ok (err e) h = cc

  commit-eq-err :
      (r : Result (A × Db)) {e : Failure} {db' : Db} → commit db r ≡ (err e, db') → db' ≡ db
  unfolding commit
  commit-eq-err (ok r) h = cc
  commit-eq-err (err e) h = cc

  pub with_tenant-eq-ok :
      (body : Tx A) {a : A} {db' : Db} → with_tenant body db ≡ (ok a, db') → body db ≡ ok (a, db')
  unfolding with_tenant
  with_tenant-eq-ok body h = commit-eq-ok (body db) h

  pub with_tenant-eq-err :
      (body : Tx A) {e : Failure} {db' : Db} → with_tenant body db ≡ (err e, db') → db' ≡ db
  unfolding with_tenant
  with_tenant-eq-err body h = commit-eq-err (body db) h

-- A transaction that only reads.
abbrev pub ReadsOnly : {A : Type 0} → Tx A → Db → Type 0
ReadsOnly {A} body db = (a : A) (mid : Db) → body db ≡ ok (a, mid) → mid ≡ db

module _ {A B : Type 0} (f : A → Service B) (db : Db) where
  go_on_reads :
      (r : Result (A × Db)) {b : Result B} {db' : Db}
      → ((a : A) (mid : Db) → r ≡ ok (a, mid) → mid ≡ db)
      → go_on (commit db r) f ≡ (b, db')
      → ((e : Failure) × (b ≡ err e) × (db' ≡ db))
        ⊎ ((a : A) × (r ≡ ok (a, db)) × (f a db ≡ (b, db')))
  unfolding go_on commit
  go_on_reads (ok (a, mid)) reads h =
      inr (a, ap (λ m. ok (a, m)) (reads a mid refl), rw (reads a mid refl) at h)
  go_on_reads (err e) reads h = inl (e, cc, cc)

  pub and_then_reads :
      (body : Tx A) {b : Result B} {db' : Db}
      → ReadsOnly body db
      → and_then (with_tenant body) f db ≡ (b, db')
      → ((e : Failure) × (b ≡ err e) × (db' ≡ db))
        ⊎ ((a : A) × (body db ≡ ok (a, db)) × (f a db ≡ (b, db')))
  unfolding with_tenant
  and_then_reads body reads h = go_on_reads (body db) reads h

module _ {A : Type 0} (db : Db) where
  commit_cases :
      (r : Result (A × Db)) {b : Result A} {db' : Db}
      → commit db r ≡ (b, db')
      → ((e : Failure) × (b ≡ err e) × (db' ≡ db)) ⊎ ((a : A) × (b ≡ ok a) × (r ≡ ok (a, db')))
  unfolding commit
  commit_cases (ok (a, mid)) h = inr (a, cc, cc)
  commit_cases (err e) h = inl (e, cc, cc)

  pub with_tenant_cases :
      (body : Tx A) {b : Result A} {db' : Db}
      → with_tenant body db ≡ (b, db')
      → ((e : Failure) × (b ≡ err e) × (db' ≡ db))
        ⊎ ((a : A) × (b ≡ ok a) × (body db ≡ ok (a, db')))
  unfolding with_tenant
  with_tenant_cases body h = commit_cases (body db) h

abbrev hand_on : {A B : Type 0} → (A → Tx B) → Result (A × Db) → Result (B × Db)
hand_on f (ok r) = f r.0 r.1
hand_on f (err e) = err e

elim_hand_on :
    {A B : Type 0} (f : A → Tx B) (r : Result (A × Db)) {a : A} {mid : Db}
    → r ≡ ok (a, mid)
    → ◌≡◌ {A = Result (B × Db)} (elim r [ ok p ↦ f p.0 p.1 | err e ↦ err e ]) (f a mid)
elim_hand_on f (ok p) e = ap (hand_on f) e
elim_hand_on f (err x) e = cc

-- A step that returned hands its result to the next.
pub >>=-ok :
    {A B : Type 0} (m : Tx A) (f : A → Tx B) (db : Db) {a : A} {mid : Db}
    → m db ≡ ok (a, mid)
    → (m >>= f) db ≡ f a mid
>>=-ok m f db e = elim_hand_on f (m db) e

elim_stop :
    {A B : Type 0} (f : A → Tx B) (r : Result (A × Db)) {x : Failure}
    → r ≡ err x
    → ◌≡◌ {A = Result (B × Db)} (elim r [ ok p ↦ f p.0 p.1 | err e ↦ err e ]) (err x)
elim_stop f (ok p) e = cc
elim_stop f (err y) e = cc

-- A step that threw ends its transaction.
pub >>=-err :
    {A B : Type 0} (m : Tx A) (f : A → Tx B) (db : Db) {x : Failure}
    → m db ≡ err x
    → (m >>= f) db ≡ err x
>>=-err m f db e = elim_stop f (m db) e
