-- ===== src/Mandate/Resource.antt =====
-- packages/mandate/src/resource.ts: which resource URLs a pattern of a mandate covers.
use Prim.Native.Char.{code}
use text.Mathlib.Text.{starts_with}
use atlas_rail.Common.{
  ℕ, ◌+◌, String, Bool, false, not, ◌&&◌, ◌||◌, Option, none, some, List, any, leb, ltb, ◌==◌,
  string_eq, nat_eq, if◌then◌else◌,
}
use atlas_rail.Mandate.Documents.{Url, Platform}

pub record ResourceKey : Type 0 where
  pub origin : String
  pub pathname : String

pub record ParsedPattern : Type 0 where
  pub origin : String
  pub path : String
  pub is_prefix : Bool

-- `text.length`, in UTF-16 code units.
unfoldable pub utf16_length : String → ℕ
utf16_length String.[] = 0
utf16_length (String.◌∷◌ c s) = (if ltb (code c) 0x10000 then 1 else 2) + utf16_length s

-- How many characters satisfy the test.
unfoldable pub count_chars : (ℕ → Bool) → String → ℕ
count_chars p String.[] = 0
count_chars p (String.◌∷◌ c s) = (if p (code c) then 1 else 0) + count_chars p s

-- `text.endsWith('/*')`
pub ends_with_wildcard : String → Bool
ends_with_wildcard String.[] = false
ends_with_wildcard (String.◌∷◌ c s) = (String.◌∷◌ c s == "/*") || ends_with_wildcard s

-- `text.slice(0, -1)` of a text that ends in a character of one unit.
pub drop_last : String → String
drop_last String.[] = String.[]
drop_last (String.◌∷◌ c String.[]) = String.[]
drop_last (String.◌∷◌ c (String.◌∷◌ d s)) = String.◌∷◌ c (drop_last (String.◌∷◌ d s))

lower : ℕ → ℕ
lower c = if leb b'A' c && leb c b'Z' then c + 32 else c

-- `/%2f|%5c/i.test(text)`
pub has_encoded_slash : String → Bool
unfolding lower
has_encoded_slash String.[] = false
has_encoded_slash (String.◌∷◌ c String.[]) = false
has_encoded_slash (String.◌∷◌ c (String.◌∷◌ d String.[])) = false
has_encoded_slash (String.◌∷◌ c (String.◌∷◌ d (String.◌∷◌ e s))) =
    (code c == b'%'
      && ((code d == b'2' && lower (code e) == b'f') || (code d == b'5' && lower (code e) == b'c')))
    || has_encoded_slash (String.◌∷◌ d (String.◌∷◌ e s))

module _ ⦃env : Platform⦄ where
  url_key : Url → Option ResourceKey
  unfolding has_encoded_slash
  url_key url =
      if not (url.protocol == "http:") && not (url.protocol == "https:")
      then none
      else if not (url.username == "") || not (url.password == "")
      then none
      else if has_encoded_slash url.pathname
      then none
      else some (record { origin = url.origin; pathname = url.pathname })

  unfoldable pub normalize_resource_url : String → Option ResourceKey
  unfolding url_key
  normalize_resource_url input = elim (env.parse_url input) [ none ↦ none | some url ↦ url_key url ]

  unfoldable pub parse_resource_pattern : String → Option ParsedPattern
  unfolding utf16_length count_chars ends_with_wildcard drop_last normalize_resource_url
  parse_resource_pattern pattern =
      let wildcards = count_chars (λ c. c == b'*') pattern in
      let is_prefix = ends_with_wildcard pattern in
      let base = if is_prefix then drop_last pattern else pattern in
      if utf16_length pattern == 0 || ltb 2048 (utf16_length pattern)
      then none
      else if ltb 1 wildcards || (wildcards == 1 && not is_prefix)
      then none
      else if ltb 0 (count_chars (λ c. c == b'?' || c == b'#') base)
      then none
      else elim (normalize_resource_url base) [
        | none ↦ none
        | some k ↦ some (record { origin = k.origin; path = k.pathname; is_prefix = is_prefix })
      ]

  unfoldable pub covers : ParsedPattern → ResourceKey → Bool
  unfolding utf16_length
  covers pattern resource =
      resource.origin == pattern.origin
      && (if pattern.is_prefix
          then starts_with resource.pathname pattern.path
            && (pattern.path == "/"
                || ltb (utf16_length pattern.path) (utf16_length resource.pathname))
          else resource.pathname == pattern.path)

  unfoldable pub matches_resource_pattern : String → String → Bool
  unfolding covers normalize_resource_url parse_resource_pattern
  matches_resource_pattern resource_url pattern = elim (normalize_resource_url resource_url) [
    | none ↦ false
    | some resource ↦ elim (parse_resource_pattern pattern) [
      | none ↦ false
      | some parsed ↦ covers parsed resource
    ]
  ]

  unfoldable pub matches_any_resource_pattern : String → List String → Bool
  unfolding matches_resource_pattern
  matches_any_resource_pattern resource_url patterns =
      any (λ pattern. matches_resource_pattern resource_url pattern) patterns
