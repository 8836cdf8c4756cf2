-- ===== src/Payments/Json.antt =====
-- JSON as serde_json gives it, with the accessors that the program uses.
use lets_embed.Prelude.{
  ℕ, Bool, true, false, Option, none, some, List, [], ◌∷◌, unwrap_or, if◌then◌else◌,
}
use lets_embed.Prelude.Text.{Str, str_eq}

mutual
  -- A number is one that fits into u64, or another.
  pub data Json : Type 0 where
    null : Json
    boolean : Bool → Json
    number : ℕ → Json
    other_number : Json
    text : Str → Json
    array : Items → Json
    object : Members → Json

  pub data Items : Type 0 where
    end : Items
    item : Json → Items → Items

  pub data Members : Type 0 where
    no_more : Members
    member : Str → Json → Members → Members

abbrev pub lookup : Members → Str → Option Json
lookup no_more name = none
lookup (member key value rest) name =
    let others = lookup rest name in if str_eq key name then some value else others

-- `Value::get` with a name, and indexing, which is null on a missing member.
abbrev pub get : Json → Str → Option Json
get (object members) name = lookup members name
get _ name = none

abbrev pub field : Json → Str → Json
field value name = unwrap_or (get value name) null

abbrev pub to_list : Items → List Json
to_list end = []
to_list (item value rest) = value ∷ to_list rest

abbrev pub as_array : Json → Option (List Json)
as_array (array items) = some (to_list items)
as_array _ = none

abbrev pub as_str : Json → Option Str
as_str (text s) = some s
as_str _ = none

abbrev pub as_u64 : Json → Option ℕ
as_u64 (number n) = some n
as_u64 _ = none

abbrev pub is_null : Json → Bool
is_null null = true
is_null _ = false
