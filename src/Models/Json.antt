-- ===== src/Models/Json.antt =====
-- JSON values (the columns of type JSON in models.py, payloads and details), and Python's
-- `dict.get`, `|` with one key, and `_integer` of usage_services.py on them.
use hermes_orchestrator.Prelude.{
  ℕ, ◌≡◌, refl, Bool, false, ◌||◌, String, Option, none, some, List, [], ◌∷◌, arith, str_eq, eq_iff,
  if◌then◌else◌,
}

-- An integer; `negsuc n` is -(n + 1).
pub data ℤ : Type 0 where
  pos : ℕ → ℤ
  negsuc : ℕ → ℤ

-- `decimal` is a number that is no integer, by its text; `uuid` and `instant` are the texts of an
-- identifier and of a time.
mutual
  pub data Json : Type 0 where
    null : Json
    boolean : Bool → Json
    integer : ℤ → Json
    decimal : String → Json
    text : String → Json
    uuid : ℕ → Json
    instant : ℕ → Json
    array : Items → Json
    object : Fields → Json

  pub data Items : Type 0 where
    nil : Items
    cons : Json → Items → Items

  pub data Fields : Type 0 where
    end : Fields
    field : String → Json → Fields → Fields

-- `d.get(k)`
unfoldable pub get : String → Fields → Option Json
get k end = none
get k (field j v d) = if str_eq j k then some v else get k d

-- `d | {k: v}`
unfoldable pub set : String → Json → Fields → Fields
set k v end = field k v end
set k v (field j w d) = if str_eq j k then field j v d else field j w (set k v d)

pub get-set :
    (k j : String) (v : Json) (d : Fields)
    → get j (set k v d) ≡ (if str_eq k j then some v else get j d)
unfolding get set
get-set k j v end = refl
get-set k j v (field i w d) = ground (arith, eq_iff k j, eq_iff i k, eq_iff i j, get-set k j v d)

-- `isinstance(value, dict)`
unfoldable pub as_object : Option Json → Option Fields
as_object (some (object d)) = some d
as_object _ = none

-- `_integer`: an integer that is not a bool and not negative.
unfoldable pub as_natural : Option Json → Option ℕ
as_natural (some (integer (pos n))) = some n
as_natural _ = none

-- The text of a value, where it is one.
unfoldable pub as_text : Option Json → Option String
as_text (some (text s)) = some s
as_text _ = none

-- `isinstance(value, list)`
unfoldable pub as_array : Option Json → Option Items
as_array (some (array xs)) = some xs
as_array _ = none

-- `s in xs`
unfoldable pub items_have : String → Items → Bool
items_have s nil = false
items_have s (cons (text t) xs) = str_eq t s || items_have s xs
items_have s (cons _ xs) = items_have s xs

-- `str(x or "") or None`, where `x` is a text or absent
unfoldable pub nonempty_text : Option Json → Option String
nonempty_text (some (text s)) = if str_eq s "" then none else some s
nonempty_text _ = none

abbrev pub number : ℕ → Json
number n = integer (pos n)

abbrev pub opt_text : Option String → Json
opt_text none = null
opt_text (some s) = text s

abbrev pub opt_number : Option ℕ → Json
opt_number none = null
opt_number (some n) = number n

abbrev pub opt_uuid : Option ℕ → Json
opt_uuid none = null
opt_uuid (some n) = uuid n

abbrev pub opt_instant : Option ℕ → Json
opt_instant none = null
opt_instant (some n) = instant n

abbrev pub texts : List String → Items
texts [] = nil
texts (s ∷ ss) = cons (text s) (texts ss)

abbrev pub uuids : List ℕ → Items
uuids [] = nil
uuids (n ∷ ns) = cons (uuid n) (uuids ns)
