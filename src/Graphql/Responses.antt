-- ===== src/Graphql/Responses.antt =====
-- What packages/js/client/src/graphql/graphql-client.ts makes of a response: the spelling of its keys
-- and the information on the page.
pub mod RoundTrip
use Prim.Native.String
use Prim.Native.String.{[], ◌∷◌}
use bfw_engine.Common.{
  String, Char, code, Bool, true, false, ℕ, ltb, eqb, Option, none, some, or_default, is_some,
  if◌then◌else◌, translate, lower_letters, upper_letters, ◌≡◌, refl,
}
use bfw_engine.Graphql.Names.{in_text}
use bfw_engine.Graphql.Values.{Number}
use bfw_engine.Graphql.Query.{PaginationOptions, cursor, offset}

-- `/[a-z]/`
abbrev pub is_lower : Char → Bool
is_lower c = in_text c lower_letters

abbrev pub is_underscore : Char → Bool
is_underscore c = eqb (code c) b'_'

-- `replace(/_([a-z])/g, …)`, where the Boolean says that an underscore has just been passed.
unfoldable pub camel_from : Bool → String → String
camel_from false [] = []
camel_from true [] = "_"
camel_from false (c ∷ s) =
    let behind = camel_from true s in
    let rest = camel_from false s in if is_underscore c then behind else c ∷ rest
camel_from true (c ∷ s) =
    let behind = camel_from true s in
    let rest = camel_from false s in
    if is_lower c
    then translate lower_letters upper_letters c ∷ rest
    else String.◌++◌ "_" (if is_underscore c then behind else c ∷ rest)

-- the key that `camelizeKeys` gives a value
unfoldable pub camel_key : String → String
unfolding camel_from
camel_key key = camel_from false key

-- An absent field is `none`, and so is `null`.
pub record ConnectionResponse : Type 0 where
  pub count : ℕ
  pub start_keyset : Option String
  pub end_keyset : Option String
  pub has_next_page : Option Bool
  pub has_previous_page : Option Bool
  pub page_number : Option Number
  pub last_page : Option Number
  pub limit : Option Number

pub data PageInfo : Type 0 where
  cursor_page :
      (total_count : ℕ) (start_cursor end_cursor : Option String)
      (has_next_page has_previous_page : Bool)
      → PageInfo
  offset_page :
      (total_count : ℕ) (skipped limit : Number) (has_next_page has_previous_page : Bool)
      (page_number last_page : Number)
      → PageInfo

abbrev pub one_page : Number
one_page = record { negative = false; magnitude = 1 }

-- `pagination?.mode === 'cursor' && pagination.after != null`
abbrev pub has_after : Option PaginationOptions → Bool
has_after (some (cursor first after last before)) = is_some after
has_after _ = false

unfoldable pub build_page_info :
    ConnectionResponse → Option PaginationOptions → (result_count : ℕ) → PageInfo
build_page_info connection (some (offset limit skipped)) result_count =
    offset_page connection.count skipped (or_default connection.limit limit)
      (or_default connection.has_next_page false) (or_default connection.has_previous_page false)
      (or_default connection.page_number one_page) (or_default connection.last_page one_page)
build_page_info connection pagination result_count =
    cursor_page connection.count connection.start_keyset connection.end_keyset
      (ltb result_count connection.count) (has_after pagination)

spells_keys :
    (camel_key "boundary_event_refs" ≡ "boundaryEventRefs") × (camel_key "_a__b_1_" ≡ "A_B_1_")
unfolding camel_key
spells_keys = (refl, refl)
