-- ===== src/Prelude/Json.antt =====
-- The values that the `json` module reads and writes, and files that hold one. A file is the value
-- that `json.loads` finds in it, if it finds one. An integer of more digits than `str` writes, and a
-- value nested deeper than the stack allows, are left out.
use mathlib.Core.Path.{◌≡◌, refl, ap}
use mathlib.Core.Bool.{Bool, false, not, ◌&&◌}
use mathlib.Core.Option.{Option, none, some}
use mathlib.Core.List.{List, [], ◌∷◌, map}
use Prim.Native.Nat.{ℕ, ◌+◌, ◌-◌, ◌*◌, ◌^◌, ◌/◌, ◌%◌}
use shin_vpn.Prelude.Lists.{bytes_eq, bytes_eq_refl, bytes_eq→eq}
use shin_vpn.Prelude.Errors.{Result, ok, err, type_error, value_error, file_not_found}
use shin_vpn.Prelude.Tests.{if◌then◌else◌, ltb, leb, ◌==◌}
use shin_vpn.Prelude.Utf8.{Text}
use shin_vpn.Prelude.Int.{ℤ}
use shin_vpn.Prelude.Assoc.{Assoc, lookup, insert, has, lookup-insert}

-- A float is its 64-bit pattern.
mutual
  pub data Json : Type 0 where
    null : Json
    boolean : Bool → Json
    int : ℤ → Json
    float : ℕ → Json
    str : Text → Json
    arr : Items → Json
    obj : Fields → Json

  pub data Items : Type 0 where
    nil : Items
    cons : Json → Items → Items

  pub data Fields : Type 0 where
    end : Fields
    field : Text → Json → Fields → Fields

-- A `list` and a `dict` as a value, and back.
abbrev pub to_items : List Json → Items
to_items [] = nil
to_items (v ∷ vs) = cons v (to_items vs)

abbrev pub of_items : Items → List Json
of_items nil = []
of_items (cons v vs) = v ∷ of_items vs

abbrev pub to_fields : Assoc Text Json → Fields
to_fields [] = end
to_fields ((k, v) ∷ d) = field k v (to_fields d)

abbrev pub of_fields : Fields → Assoc Text Json
of_fields end = []
of_fields (field k v d) = (k, v) ∷ of_fields d

pub of_fields-to_fields : (d : Assoc Text Json) → of_fields (to_fields d) ≡ d
of_fields-to_fields [] = refl
of_fields-to_fields ((k, v) ∷ d) = ap (◌∷◌ (k, v)) (of_fields-to_fields d)

pub of_items-to_items : (vs : List Json) → of_items (to_items vs) ≡ vs
of_items-to_items [] = refl
of_items-to_items (v ∷ vs) = ap (◌∷◌ v) (of_items-to_items vs)

-- v == text
abbrev pub is_text : Text → Json → Bool
is_text t (str s) = bytes_eq s t
is_text t v = false

-- A code point above 0xFFFF is written as the escapes of two surrogates, and two such escapes in a
-- row are read as one code point.
abbrev is_high : ℕ → Bool
is_high c = leb 55296 c && ltb c 56320

abbrev is_low : ℕ → Bool
is_low c = leb 56320 c && ltb c 57344

abbrev put : ℕ → Text → Text
put h [] = h ∷ []
put h (l ∷ t) =
    if is_high h && is_low l then (65536 + (h - 55296) * 1024 + (l - 56320)) ∷ t else h ∷ l ∷ t

unfoldable pub reread_text : Text → Text
reread_text [] = []
reread_text (c ∷ t) = put c (reread_text t)

-- Every NaN is written `NaN`. What `repr` writes of another float is read as that float.
abbrev reread_float : ℕ → ℕ
reread_float v =
    if v / 2 ^ 52 % 2 ^ 11 == 2047 && not (v % 2 ^ 52 == 0) then 2047 * 2 ^ 52 + 2 ^ 51 else v

-- json.loads(json.dumps(v)). Of the values of a name the last one stays, in the place of the first.
unfoldable mutual
  pub reread : Json → Json
  reread null = null
  reread (boolean b) = boolean b
  reread (int i) = int i
  reread (float v) = float (reread_float v)
  reread (str t) = str (reread_text t)
  reread (arr items) = arr (reread_items items)
  reread (obj fields) = obj (to_fields (reread_fields fields []))

  pub reread_items : Items → Items
  reread_items nil = nil
  reread_items (cons v vs) = cons (reread v) (reread_items vs)

  pub reread_fields : Fields → Assoc Text Json → Assoc Text Json
  reread_fields end d = d
  reread_fields (field k v fields) d =
      reread_fields fields (insert bytes_eq (reread_text k) (reread v) d)

abbrev pub JsonFiles : Type 0
JsonFiles = Assoc Text (Option Json)

-- json.loads(path.read_text()), where a file that is not there raises FileNotFoundError
unfoldable pub load_json : Text → JsonFiles → Result Json
load_json path files = elim (lookup bytes_eq path files) [
  | none ↦ err file_not_found
  | some content ↦ elim content [ none ↦ err value_error | some v ↦ ok v ]
]

-- path.write_text(json.dumps(v))
unfoldable pub save_json : Text → Json → JsonFiles → JsonFiles
save_json path v files = insert bytes_eq path (some (reread v)) files

-- The keyword arguments of a dataclass: one that is no field raises TypeError, and one that is
-- missing takes its default or, without one, raises TypeError too.
unfoldable pub known_keys : List Text → Assoc Text Json → Result (Unit {0})
known_keys names [] = ok tt
known_keys names ((k, v) ∷ d) =
    let rest = known_keys names d in
    if has bytes_eq k (map (λ n. (n, n)) names) then rest else err type_error

unfoldable pub or_default : Text → Json → Assoc Text Json → Json
or_default name default d = elim (lookup bytes_eq name d) [ none ↦ default | some v ↦ v ]

unfoldable pub required : Text → Assoc Text Json → Result Json
required name d = elim (lookup bytes_eq name d) [ none ↦ err type_error | some v ↦ ok v ]

pub load_json-save_json :
    (path : Text) (v : Json) (files : JsonFiles)
    → load_json path (save_json path v files) ≡ ok (reread v)
unfolding load_json save_json
load_json-save_json path v files = rw (
  lookup-insert bytes_eq (λ a b. (bytes_eq→eq a b, λ e. rw e (bytes_eq_refl b))) path path
      (some (reread v)) files,
  bytes_eq_refl path,
  load_json,
)
