-- ===== src/Base/Effects.antt =====
-- Calls that change a state and may raise. What was written before a raise stays written, so the
-- state comes back beside the exception too.
use mathlib.Core.Bool.{Bool, true, false}

-- The exceptions that the program raises or lets through.
pub data Error : Type 0 where
  -- `ValueError`, also of `uuid.UUID` and `int`
  value_error : Error
  file_not_found : Error
  assertion_error : Error
  attribute_error : Error
  -- an exception of the database driver, a violated constraint among them
  database_error : Error
  broker_error : Error
  object_store_error : Error
  runtime_error : Error
  zero_division_error : Error
  -- `HTTPException` with its status code
  payload_too_large : Error
  not_found : Error
  bad_request : Error

pub data Result (A : Type 0) : Type 0 where
  returned : A → Result A
  raised : Error → Result A

abbrev pub Exec : Type 0 → Type 0 → Type 0
Exec S A = S → Result A × S

module _ {S A : Type 0} where
  abbrev pub pure : A → Exec S A
  pure a s = (returned a, s)

  abbrev pub raise : Error → Exec S A
  raise e s = (raised e, s)

  abbrev pub gets : (S → A) → Exec S A
  gets f s = (returned (f s), s)

  abbrev pub handle : Result A × S → (Error → Exec S A) → Result A × S
  handle (returned a, s) h = (returned a, s)
  handle (raised e, s) h = h e s

  -- `try: m` with `except Exception: h`
  abbrev pub catch : Exec S A → (Error → Exec S A) → Exec S A
  catch m h s = handle (m s) h

  -- `if c: m` with `else: n`
  abbrev pub branch : Bool → Exec S A → Exec S A → Exec S A
  branch true m n s = m s
  branch false m n s = n s

  -- `try: m` with `finally: f`, for an `f` that does not raise
  abbrev pub finally : Exec S A → (S → S) → Exec S A
  finally m f s = let (r, s') = m s in (r, f s')

module _ {S : Type 0} where
  abbrev pub modify : (S → S) → Exec S (Unit {0})
  modify f s = (returned tt, f s)

  abbrev pub raise_if : Bool → Error → Exec S (Unit {0})
  raise_if true e s = (raised e, s)
  raise_if false e s = (returned tt, s)

  abbrev pub when : Bool → Exec S (Unit {0}) → Exec S (Unit {0})
  when true m s = m s
  when false m s = (returned tt, s)

abbrev pub continue : {S A B : Type 0} → Result A × S → (A → Exec S B) → Result B × S
continue (returned a, s) f = f a s
continue (raised e, s) f = (raised e, s)

infixl 10 ◌>>=◌ ◌>>◌
abbrev pub ◌>>=◌ : {S A B : Type 0} → Exec S A → (A → Exec S B) → Exec S B
◌>>=◌ m f s = continue (m s) f

abbrev pub ◌>>◌ : {S A B : Type 0} → Exec S A → Exec S B → Exec S B
m >> k = m >>= λ _. k

abbrev pub put_back : {S T A : Type 0} → (T → S → S) → Result A × T → S → Result A × S
put_back put (r, t) s = (r, put t s)

-- A call on a part of the state.
abbrev pub on : {S T A : Type 0} → (S → T) → (T → S → S) → Exec T A → Exec S A
on get put m s = put_back put (m (get s)) s

-- `m` keeps `P`, whether it returns or raises.
pub record Keeps {S A : Type 0} (P : S → Type 0) (m : Exec S A) : Type 0 where
  pub at : (s : S) → P s → P (m s).1

module _ {S A : Type 0} {P : S → Type 0} where
  pub Keeps-pure : (a : A) → Keeps P (pure a)
  Keeps-pure a = record { at = λ s h. h }

  pub Keeps-raise : (e : Error) → Keeps P (raise {A = A} e)
  Keeps-raise e = record { at = λ s h. h }

  pub Keeps-gets : (f : S → A) → Keeps P (gets f)
  Keeps-gets f = record { at = λ s h. h }

  pub Keeps-branch : (b : Bool) (m n : Exec S A) → Keeps P m → Keeps P n → Keeps P (branch b m n)
  Keeps-branch true m n km kn = record { at = km.at }
  Keeps-branch false m n km kn = record { at = kn.at }

  pub Keeps-catch :
      (m : Exec S A) (h : Error → Exec S A)
      → Keeps P m
      → ((e : Error) → Keeps P (h e))
      → Keeps P (catch m h)
  Keeps-catch m h km kh = record { at = λ s p. handled (m s) (km.at s p) }
    where
      handled : (r : Result A × S) → P r.1 → P (handle r h).1
      handled (returned a, s) p = p
      handled (raised e, s) p = (kh e).at s p

  pub Keeps-finally :
      (m : Exec S A) (f : S → S) → Keeps P m → ((s : S) → P s → P (f s)) → Keeps P (finally m f)
  Keeps-finally m f km kf = record { at = λ s p. kf (m s).1 (km.at s p) }

module _ {S : Type 0} {P : S → Type 0} where
  pub Keeps-modify : (f : S → S) → ((s : S) → P s → P (f s)) → Keeps P (modify f)
  Keeps-modify f k = record { at = k }

  pub Keeps-raise_if : (c : Bool) (e : Error) → Keeps P (raise_if c e)
  Keeps-raise_if true e = record { at = λ s h. h }
  Keeps-raise_if false e = record { at = λ s h. h }

  pub Keeps-when : (c : Bool) (m : Exec S (Unit {0})) → Keeps P m → Keeps P (when c m)
  Keeps-when true m k = record { at = k.at }
  Keeps-when false m k = record { at = λ s h. h }

module _ {S A B : Type 0} {P : S → Type 0} where
  pub Keeps-bind :
      (m : Exec S A) (f : A → Exec S B) → Keeps P m → ((a : A) → Keeps P (f a)) → Keeps P (m >>= f)
  Keeps-bind m f km kf = record { at = λ s p. continued (m s) (km.at s p) }
    where
      continued : (r : Result A × S) → P r.1 → P (continue r f).1
      continued (returned a, s) p = (kf a).at s p
      continued (raised e, s) p = p

pub ruleset keeps_rules = (
  Keeps-pure, Keeps-raise, Keeps-gets, Keeps-branch, Keeps-catch, Keeps-raise_if, Keeps-when,
  Keeps-bind,
)

-- What holds of the state when a call has returned.
abbrev pub Led : {S A : Type 0} → (S → Type 0) → Result A × S → Type 0
Led Q (returned a, s) = Q s
Led Q (raised e, s) = Unit {0}

-- If `m` is called where `P` holds, and returns, then `Q` holds.
pub record Leads {S A : Type 0} (P Q : S → Type 0) (m : Exec S A) : Type 0 where
  pub at : (s : S) → P s → Led Q (m s)

module _ {S A : Type 0} {P Q : S → Type 0} where
  pub Leads-raise : (e : Error) → Leads P Q (raise {A = A} e)
  Leads-raise e = record { at = λ s h. tt }

  pub Leads-branch :
      (b : Bool) (m n : Exec S A) → Leads P Q m → Leads P Q n → Leads P Q (branch b m n)
  Leads-branch true m n lm ln = record { at = lm.at }
  Leads-branch false m n lm ln = record { at = ln.at }

  pub Leads-catch :
      (m : Exec S A) (h : Error → Exec S A)
      → Leads P Q m
      → ((e : Error) → Leads (λ s. Unit {0}) Q (h e))
      → Leads P Q (catch m h)
  Leads-catch m h lm lh = record { at = λ s p. handled (m s) (lm.at s p) }
    where
      handled : (r : Result A × S) → Led Q r → Led Q (handle r h)
      handled (returned a, s) q = q
      handled (raised e, s) q = (lh e).at s tt

module _ {S A : Type 0} {P : S → Type 0} where
  pub Leads-trivial : (m : Exec S A) → Leads P (λ s. Unit {0}) m
  Leads-trivial m = record { at = λ s h. go (m s) }
    where
      go : (r : Result A × S) → Led (λ s. Unit {0}) r
      go (returned a, s) = tt
      go (raised e, s) = tt

  pub Leads-keep : (m : Exec S A) → Keeps P m → Leads P P m
  Leads-keep m k = record { at = λ s p. kept (m s) (k.at s p) }
    where
      kept : (r : Result A × S) → P r.1 → Led P r
      kept (returned a, s) h = h
      kept (raised e, s) h = tt

module _ {S A B : Type 0} {P Q R : S → Type 0} where
  pub Leads-bind :
      (m : Exec S A) (f : A → Exec S B)
      → Leads P Q m
      → ((a : A) → Leads Q R (f a))
      → Leads P R (m >>= f)
  Leads-bind m f lm lf = record { at = λ s p. continued (m s) (lm.at s p) }
    where
      continued : (r : Result A × S) → Led Q r → Led R (continue r f)
      continued (returned a, s) q = (lf a).at s q
      continued (raised e, s) q = tt
