-- ===== src/Store/Frames.antt =====
-- Transactions that leave a part of the tables as it is, or maintain an invariant, when they return.
use license_srv.Prelude.{◌≡◌, ap, ◌∙◌, Bool, ℕ}
use mathlib.Core.Path.{subst}
use license_srv.Store.Rows.{Db}
use license_srv.Store.Transaction.{Tx, Code, ok, ◌>>=◌, ◌>>◌, pure, throw, refuse_if, query, modify}
use license_srv.Store.Laws.{>>=-eq-ok, >>-eq-ok, refuse_if-eq-ok}

-- The part `g` of the tables after the transaction is the part before it.
abbrev pub Keeps : {X : Type 0} (g : Db → X) {A : Type 0} → Tx A → Type 0
Keeps g {A} m = (db : Db) (a : A) (db' : Db) → m db ≡ ok (a, db') → g db' ≡ g db

module _ {X : Type 0} (g : Db → X) where
  pub bind-Keeps :
      {A B : Type 0} (m : Tx A) (f : A → Tx B)
      → Keeps g m
      → ((a : A) → Keeps g (f a))
      → Keeps g (m >>= f)
  bind-Keeps m f km kf db b db' h =
      let (a, mid, first, second) = >>=-eq-ok m f db h in kf a mid b db' second ∙ km db a mid first

  pub seq-Keeps :
      {B : Type 0} (m : Tx (Unit {0})) (k : Tx B) → Keeps g m → Keeps g k → Keeps g (m >> k)
  seq-Keeps m k km kk db b db' h =
      let (u, mid, first, second) = >>-eq-ok m k db h in kk mid b db' second ∙ km db u mid first

  pub pure-Keeps : {A : Type 0} (a : A) → Keeps g (pure a)
  pure-Keeps a db b db' h = ap g (cc h)

  pub query-Keeps : {A : Type 0} (f : Db → A) → Keeps g (query f)
  query-Keeps f db b db' h = ap g (cc h)

  pub throw-Keeps : {A : Type 0} (code : Code) (status : ℕ) → Keeps g (throw {A = A} code status)
  throw-Keeps code status db b db' h = cc

  pub refuse_if-Keeps : (c : Bool) (code : Code) (status : ℕ) → Keeps g (refuse_if c code status)
  refuse_if-Keeps c code status db b db' h = ap g (refuse_if-eq-ok c code status db h).1

  pub modify-Keeps : (f : Db → Db) → ((db : Db) → g (f db) ≡ g db) → Keeps g (modify f)
  modify-Keeps f k db b db' h = let e : db' ≡ f db = cc in ap g e ∙ k db

-- Where `P` holds before the transaction, it holds after it.
abbrev pub Maintains : (P : Db → Type 0) {A : Type 0} → Tx A → Type 0
Maintains P {A} m = (db : Db) (a : A) (db' : Db) → P db → m db ≡ ok (a, db') → P db'

module _ (P : Db → Type 0) where
  pub bind-Maintains :
      {A B : Type 0} (m : Tx A) (f : A → Tx B)
      → Maintains P m
      → ((a : A) → Maintains P (f a))
      → Maintains P (m >>= f)
  bind-Maintains m f km kf db b db' p h =
      let (a, mid, first, second) = >>=-eq-ok m f db h in
      kf a mid b db' (km db a mid p first) second

  pub seq-Maintains :
      {B : Type 0} (m : Tx (Unit {0})) (k : Tx B)
      → Maintains P m
      → Maintains P k
      → Maintains P (m >> k)
  seq-Maintains m k km kk db b db' p h =
      let (u, mid, first, second) = >>-eq-ok m k db h in kk mid b db' (km db u mid p first) second

  pub pure-Maintains : {A : Type 0} (a : A) → Maintains P (pure a)
  pure-Maintains a db b db' p h = let e : db ≡ db' = cc in subst P e p

  pub query-Maintains : {A : Type 0} (f : Db → A) → Maintains P (query f)
  query-Maintains f db b db' p h = let e : db ≡ db' = cc in subst P e p

  pub throw-Maintains :
      {A : Type 0} (code : Code) (status : ℕ) → Maintains P (throw {A = A} code status)
  throw-Maintains code status db b db' p h = cc

  pub modify-Maintains : (f : Db → Db) → ((db : Db) → P db → P (f db)) → Maintains P (modify f)
  modify-Maintains f k db b db' p h = let e : f db ≡ db' = cc in subst P e (k db p)
