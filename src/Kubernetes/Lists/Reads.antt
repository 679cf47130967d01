-- ===== src/Kubernetes/Lists/Reads.antt =====
-- What reading a value in api/gem_api/services/k8s_client.py may raise.
use gem_gdc_emulation_enviro.Prelude.{Text, List, [], ◌∷◌, All}
use gem_gdc_emulation_enviro.Exceptions.{
  Exception, Outcome, ◌>>=◌, returned, raised, attribute_error, other_error,
}
use gem_gdc_emulation_enviro.Kubernetes.Values.{
  Value, null, bool, num, text, arr, obj, get, iterate, in_value, as_text, as_optional_text,
  as_number, each,
}

-- What reading a value may raise.
pub data IsReadError : Exception → Type 0 where
  no_attribute : IsReadError attribute_error
  caught : (name message : Text) → IsReadError (other_error name message)

-- A reading that raises nothing else, and whose result has the property.
pub data Reads {A : Type 0} (P : A → Type 0) : Outcome A → Type 0 where
  reads : (a : A) → P a → Reads P (returned a)
  stops : (e : Exception) → IsReadError e → Reads P (raised e)

abbrev pub Anything : {A : Type 0} → A → Type 0
Anything a = Unit

pub any_value : {A : Type 0} (a : A) → Reads Anything (returned a)
any_value a = reads a tt

pub bind-Reads :
    {A B : Type 0} (Q : A → Type 0) (P : B → Type 0) (o : Outcome A) (f : A → Outcome B)
    → Reads Q o
    → ((a : A) → Q a → Reads P (f a))
    → Reads P (o >>= f)
bind-Reads Q P (returned a) f (reads _ q) h = h a q
bind-Reads Q P (raised e) f (stops _ k) h = stops e k

pub get-Reads : (v : Value) (key : Text) (d : Value) → Reads Anything (get v key d)
get-Reads (obj ms) key d = any_value _
get-Reads null key d = stops _ no_attribute
get-Reads (bool b) key d = stops _ no_attribute
get-Reads (num n) key d = stops _ no_attribute
get-Reads (text s) key d = stops _ no_attribute
get-Reads (arr vs) key d = stops _ no_attribute

pub iterate-Reads : (v : Value) → Reads Anything (iterate v)
iterate-Reads (obj ms) = any_value _
iterate-Reads null = stops _ (caught _ _)
iterate-Reads (bool b) = stops _ (caught _ _)
iterate-Reads (num n) = stops _ (caught _ _)
iterate-Reads (text s) = any_value _
iterate-Reads (arr vs) = any_value _

pub in_value-Reads : (key : Text) (v : Value) → Reads Anything (in_value key v)
in_value-Reads key (obj ms) = any_value _
in_value-Reads key null = stops _ (caught _ _)
in_value-Reads key (bool b) = stops _ (caught _ _)
in_value-Reads key (num n) = stops _ (caught _ _)
in_value-Reads key (text s) = any_value _
in_value-Reads key (arr vs) = any_value _

pub as_text-Reads : (v : Value) → Reads Anything (as_text v)
as_text-Reads (text s) = any_value _
as_text-Reads null = stops _ (caught _ _)
as_text-Reads (bool b) = stops _ (caught _ _)
as_text-Reads (num n) = stops _ (caught _ _)
as_text-Reads (arr vs) = stops _ (caught _ _)
as_text-Reads (obj ms) = stops _ (caught _ _)

pub as_optional_text-Reads : (v : Value) → Reads Anything (as_optional_text v)
as_optional_text-Reads (text s) = any_value _
as_optional_text-Reads null = any_value _
as_optional_text-Reads (bool b) = stops _ (caught _ _)
as_optional_text-Reads (num n) = stops _ (caught _ _)
as_optional_text-Reads (arr vs) = stops _ (caught _ _)
as_optional_text-Reads (obj ms) = stops _ (caught _ _)

pub as_number-Reads : (v : Value) → Reads Anything (as_number v)
as_number-Reads (text s) = stops _ (caught _ _)
as_number-Reads null = stops _ (caught _ _)
as_number-Reads (bool b) = any_value _
as_number-Reads (num n) = any_value _
as_number-Reads (arr vs) = stops _ (caught _ _)
as_number-Reads (obj ms) = stops _ (caught _ _)

pub each-Reads :
    {A B : Type 0} (P : B → Type 0) (f : A → Outcome B) (xs : List A)
    → ((x : A) → Reads P (f x))
    → Reads (All P) (each f xs)
unfolding each
each-Reads P f [] h = reads [] tt
each-Reads P f (x ∷ xs) h = bind-Reads P (All P) (f x) _ (h x) (λ y hy.
    bind-Reads (All P) (All P) (each f xs) _ (each-Reads P f xs h)
      (λ ys hys. reads (y ∷ ys) (hy, hys)))
