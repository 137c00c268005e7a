-- ===== src/Rest/Calls.antt =====
-- What the clients of packages/js/client/src/rest share: texts put together from parts, options that are
-- left out, and the bodies that several of them send.
use Prim.Native.String
use bfw_engine.Common.{
  String, Bool, true, false, List, [], ◌∷◌, Option, none, some, lookup, or_default, if◌then◌else◌,
}
use bfw_engine.Graphql.Values.{
  Value, undefined, null, object, array, text, Members, end, member, entries, Elements, nil, cons,
}
use bfw_engine.Http.Transport.{
  RequestOptions, HttpOutcome, returned, thrown, type_error, syntax_error, fetch_error,
}

-- a template literal, by its parts
unfoldable pub template : List String → String
template [] = ""
template (part ∷ parts) = String.◌++◌ part (template parts)

abbrev pub no_options : RequestOptions
no_options = record { skip_auth = false; headers = [] }

abbrev pub without_auth : RequestOptions
without_auth = record { skip_auth = true; headers = [] }

-- `options?.includeXml ? '?includeXml=true' : ''`
abbrev pub xml_query : Bool → String
xml_query include_xml = if include_xml then "?includeXml=true" else ""

abbrev texts : List String → Elements
texts [] = nil
texts (s ∷ rest) = cons (text s) (texts rest)

-- `{ sources: normalizedSources }`, where a single source is a list of one
abbrev pub sources_body : List String → Value
sources_body sources = object (member "sources" (array (texts sources)) end)

abbrev pub empty_body : Value
empty_body = object end

-- a field that is set unless it is `undefined`
abbrev pub optional_member : String → Option Value → Members → Members
optional_member name none rest = rest
optional_member name (some value) rest = member name value rest

-- `response.data`
abbrev pub data_of : HttpOutcome Value → HttpOutcome Value
data_of (returned undefined) = type_error
data_of (returned null) = type_error
data_of (returned (object members)) =
    returned (or_default (lookup "data" (entries members)) undefined)
data_of (returned _) = returned undefined
data_of (thrown e) = thrown e
data_of type_error = type_error
data_of syntax_error = syntax_error
data_of fetch_error = fetch_error
