-- ===== src/Base/Json.antt =====
-- `serde_json::Value`: the type, and the methods that the program calls on it. The parser and the
-- printer of JSON are parameters of the models that call them.
use Prim.Native.Nat.{ℕ, zero, suc, compare, Ordering}
use mathlib.Core.Path.{◌≡◌, refl}
use mathlib.Core.Logic.{inl, inr}
use mathlib.Core.Bool.{Bool, true, false}
use mathlib.Core.List.{List, [], ◌∷◌}
use mathlib.Core.Option.{Option, none, some}
use native.Mathlib.Omega.{arith}
use drgtw.Base.Tests.{if◌then◌else◌, Option-cases}
use drgtw.Base.Text.{Bytes, equal, equal_iff}

-- An unsigned integer, a negative one by its absolute value, and any other number by its text.
pub data Number : Type 0 where
  pos_int neg_int : ℕ → Number
  float : Bytes → Number

mutual
  pub data Value : Type 0 where
    null : Value
    bool : Bool → Value
    number : Number → Value
    string : Bytes → Value
    array : Values → Value
    object : Fields → Value

  pub data Values : Type 0 where
    nil : Values
    cons : Value → Values → Values

  -- The entries of a `Map`, in ascending order of their keys.
  pub data Fields : Type 0 where
    end : Fields
    field : Bytes → Value → Fields → Fields

unfoldable pub as_str : Value → Option Bytes
as_str (string s) = some s
as_str _ = none

unfoldable pub as_u64 : Value → Option ℕ
as_u64 (number (pos_int n)) = some n
as_u64 _ = none

unfoldable pub as_bool : Value → Option Bool
as_bool (bool b) = some b
as_bool _ = none

unfoldable pub as_array : Value → Option Values
as_array (array vs) = some vs
as_array _ = none

-- `get`, `get_mut` and the write through it

unfoldable pub get_field : Bytes → Fields → Option Value
get_field k end = none
get_field k (field j v fs) = let later = get_field k fs in if equal j k then some v else later

unfoldable pub set_field : Bytes → Value → Fields → Fields
set_field k w end = end
set_field k w (field j v fs) =
    let later = set_field k w fs in if equal j k then field j w fs else field j v later

unfoldable pub get_value : ℕ → Values → Option Value
get_value n nil = none
get_value zero (cons v vs) = some v
get_value (suc n) (cons v vs) = get_value n vs

unfoldable pub set_value : ℕ → Value → Values → Values
set_value n w nil = nil
set_value zero w (cons v vs) = cons w vs
set_value (suc n) w (cons v vs) = cons v (set_value n w vs)

-- A key of an object or a position in an array.
pub data Step : Type 0 where
  key : Bytes → Step
  index : ℕ → Step

unfoldable pub get : Step → Value → Option Value
unfolding get_field get_value
get (key k) (object fs) = get_field k fs
get (index n) (array vs) = get_value n vs
get _ _ = none

-- The value with what `get_mut` of the step points to replaced.
unfoldable pub set : Step → Value → Value → Value
unfolding set_field set_value
set (key k) w (object fs) = object (set_field k w fs)
set (index n) w (array vs) = array (set_value n w vs)
set _ w v = v

-- A chain of `and_then(|v| v.get(…))`.
unfoldable pub get_path : List Step → Value → Option Value
unfolding get
get_path [] v = some v
get_path (s ∷ p) v = elim (get s v) [ none ↦ none | some w ↦ get_path p w ]

unfoldable pub set_path : List Step → Value → Value → Value
unfolding get set
set_path [] w v = w
set_path (s ∷ p) w v = elim (get s v) [ none ↦ v | some u ↦ set s (set_path p w u) v ]

unfoldable pub str_at : List Step → Value → Option Bytes
unfolding get_path as_str
str_at p v = elim (get_path p v) [ none ↦ none | some w ↦ as_str w ]

unfoldable pub u64_at : List Step → Value → Option ℕ
unfolding get_path as_u64
u64_at p v = elim (get_path p v) [ none ↦ none | some w ↦ as_u64 w ]

-- `Map::insert` and the `json!` macro

-- The order of the keys: that of their bytes.
unfoldable pub precedes : Bytes → Bytes → Bool
precedes [] [] = false
precedes [] (c ∷ t) = true
precedes (c ∷ s) [] = false
precedes (c ∷ s) (d ∷ t) =
    let later = precedes s t in
    elim (compare c d) [ Ordering.lt ↦ true | Ordering.eq ↦ later | Ordering.gt ↦ false ]

unfoldable pub insert_field : Bytes → Value → Fields → Fields
unfolding precedes
insert_field k w end = field k w end
insert_field k w (field j v fs) =
    let later = insert_field k w fs in
    if equal j k
    then field k w fs
    else if precedes k j
    then field k w (field j v fs)
    else field j v later

unfoldable pub fields_of : List (Bytes × Value) → Fields → Fields
unfolding insert_field
fields_of [] fs = fs
fields_of ((k, v) ∷ kvs) fs = fields_of kvs (insert_field k v fs)

abbrev pub object_of : List (Bytes × Value) → Value
object_of kvs = object (fields_of kvs end)

abbrev pub elements : List Value → Values
elements [] = nil
elements (v ∷ vs) = cons v (elements vs)

abbrev pub array_of : List Value → Value
array_of vs = array (elements vs)

-- Laws

get_field-set_field :
    (k : Bytes) (w v : Value) (fs : Fields)
    → get_field k fs ≡ some v
    → get_field k (set_field k w fs) ≡ some w
unfolding get_field set_field
get_field-set_field k w v end h = absurd (cc h)
get_field-set_field k w v (field j u fs) h = ground (arith, get_field-set_field k w v fs)

get_value-set_value :
    (n : ℕ) (w v : Value) (vs : Values)
    → get_value n vs ≡ some v
    → get_value n (set_value n w vs) ≡ some w
unfolding get_value set_value
get_value-set_value n w v nil h = absurd (cc h)
get_value-set_value zero w v (cons u vs) h = refl
get_value-set_value (suc n) w v (cons u vs) h = get_value-set_value n w v vs h

pub get-set : (s : Step) (w v u : Value) → get s v ≡ some u → get s (set s w v) ≡ some w
unfolding get set
get-set (key k) w (object fs) u h = get_field-set_field k w u fs h
get-set (index n) w (array vs) u h = get_value-set_value n w u vs h
get-set (key k) w null u h = absurd (cc h)
get-set (key k) w (bool b) u h = absurd (cc h)
get-set (key k) w (number b) u h = absurd (cc h)
get-set (key k) w (string b) u h = absurd (cc h)
get-set (key k) w (array b) u h = absurd (cc h)
get-set (index n) w null u h = absurd (cc h)
get-set (index n) w (bool b) u h = absurd (cc h)
get-set (index n) w (number b) u h = absurd (cc h)
get-set (index n) w (string b) u h = absurd (cc h)
get-set (index n) w (object b) u h = absurd (cc h)

-- What is written at a path that exists is read there.
pub get_path-set_path :
    (p : List Step) (w v u : Value) → get_path p v ≡ some u → get_path p (set_path p w v) ≡ some w
unfolding get_path set_path
get_path-set_path [] w v u h = refl
get_path-set_path (s ∷ p) w v u h = elim (Option-cases (get s v)) [
  | inl e ↦ absurd (let h' : none ≡ some u = rw (e, get_path) at h in cc h')
  | inr (x, e) ↦
      (let h' : get_path p x ≡ some u = rw (e, get_path) at h in
        let inner = get_path-set_path p w x u h' in
        rw (e, get_path, set_path) (rw (get-set s (set_path p w x) v x e) inner))
]

get_field-set_field_ne :
    (k j : Bytes) (w : Value) (fs : Fields)
    → equal k j ≡ false
    → get_field j (set_field k w fs) ≡ get_field j fs
unfolding get_field set_field
get_field-set_field_ne k j w end h = refl
get_field-set_field_ne k j w (field i v fs) h =
    ground (arith, get_field-set_field_ne k j w fs, equal_iff i k, equal_iff i j, equal_iff k j)

pub get_field-insert_field :
    (k : Bytes) (w : Value) (fs : Fields) → get_field k (insert_field k w fs) ≡ some w
unfolding get_field insert_field
get_field-insert_field k w end = ground (arith, equal_iff k k)
get_field-insert_field k w (field i v fs) =
    ground (arith, get_field-insert_field k w fs, equal_iff i k, equal_iff k k)

-- An insertion leaves the other keys.
pub get_field-insert_field_ne :
    (k j : Bytes) (w : Value) (fs : Fields)
    → equal k j ≡ false
    → get_field j (insert_field k w fs) ≡ get_field j fs
unfolding get_field insert_field
get_field-insert_field_ne k j w end h = rw h refl
get_field-insert_field_ne k j w (field i v fs) h =
    ground
      (arith, get_field-insert_field_ne k j w fs h, equal_iff i k, equal_iff i j, equal_iff k j)

-- A write to one key leaves the others.
pub get-set_other :
    (k j : Bytes) (w v : Value) → equal k j ≡ false → get (key j) (set (key k) w v) ≡ get (key j) v
unfolding get set
get-set_other k j w (object fs) h = get_field-set_field_ne k j w fs h
get-set_other k j w null h = refl
get-set_other k j w (bool b) h = refl
get-set_other k j w (number b) h = refl
get-set_other k j w (string b) h = refl
get-set_other k j w (array b) h = refl
