-- ===== src/Capture/Suggest/Build.antt =====
-- src/capture/filter_suggestions.rs: what the filter editor offers at the cursor.
use Prim.Native.Nat.{Ordering}
use tlscope_rs.Base.{
  ℕ, min, Bool, true, false, ◌||◌, List, [], ◌∷◌, ◌++◌, none, some, leb, ◌==◌, if◌then◌else◌, keep,
  each, take, drop, take_while, is_empty,
}
use tlscope_rs.Base.Order.{compare_text}
use tlscope_rs.Text.{
  Text, text, text_eq, to_ascii_lowercase, starts_with, strip_prefix, split_once, byte_len,
}
use tlscope_rs.Text.Number.{show_uint}
use tlscope_rs.Text.Offset.{take_bytes, drop_bytes, clamp_to_char_boundary}
use tlscope_rs.Capture.SortedVec.{partition_point}
use tlscope_rs.Capture.Store.{FilterIndex}
use tlscope_rs.Capture.Suggest.{
  filter_keys, methods, booleans, has_values, operators, duration_presets, content_type_aliases,
  common_status_buckets, SuggestionKind, key, method, host, status, content_type, boolean,
  has_value, duration, FilterSuggestion, current_token,
}

-- Stable sorting, and `dedup_by`: of equal neighbours the first stays.
module _ {A : Type 0} (le : A → A → Bool) where
  insert_stable : A → List A → List A
  insert_stable x [] = x ∷ []
  insert_stable x (y ∷ ys) =
      let rest = insert_stable x ys in if le x y then x ∷ y ∷ ys else y ∷ rest

  unfoldable pub sort_by : List A → List A
  unfolding insert_stable
  sort_by [] = []
  sort_by (x ∷ xs) = insert_stable x (sort_by xs)

module _ {A : Type 0} (same : A → A → Bool) where
  dedup_after : A → List A → List A
  dedup_after x [] = []
  dedup_after x (y ∷ ys) = elim (same y x) [
    | true ↦ dedup_after x ys
    | false ↦ y ∷ dedup_after y ys
  ]

  unfoldable pub dedup_by : List A → List A
  unfolding dedup_after
  dedup_by [] = []
  dedup_by (x ∷ xs) = x ∷ dedup_after x xs

abbrev pub text_le : Text → Text → Bool
text_le s t = elim (compare_text s t) [ Ordering.gt ↦ false | _ ↦ true ]

abbrev pub text_lt : Text → Text → Bool
text_lt s t = elim (compare_text s t) [ Ordering.lt ↦ true | _ ↦ false ]

unfoldable pub sort_and_dedup : List FilterSuggestion → List FilterSuggestion
unfolding sort_by dedup_by
sort_and_dedup suggestions =
    dedup_by (λ l r. text_eq l.display r.display)
      (sort_by (λ l r. text_le l.display r.display) suggestions)

unfoldable pub value_suggestion : Text → Text → SuggestionKind → FilterSuggestion
value_suggestion k value kind = record {
  replacement = k ++ b':' ∷ value;
  display = value;
  kind = kind;
}

unfoldable pub key_suggestions : Text → List FilterSuggestion
unfolding text to_ascii_lowercase
key_suggestions prefix =
    let lower = to_ascii_lowercase prefix in
    each (λ k. record { replacement = k; display = k; kind = key })
      (keep (λ k. starts_with k lower) filter_keys)

unfoldable pub static_value_suggestions :
    Text → Text → List Text → SuggestionKind → List FilterSuggestion
unfolding value_suggestion to_ascii_lowercase
static_value_suggestions k prefix values kind =
    let lower = to_ascii_lowercase prefix in
    each (λ v. value_suggestion k v kind)
      (keep (λ v. starts_with (to_ascii_lowercase v) lower) values)

unfoldable pub prefix_suggestions : List Text → Text → ℕ → List Text
unfolding partition_point
prefix_suggestions values prefix limit = take limit (
    take_while (λ v. starts_with v prefix)
      (drop (partition_point (λ v. text_lt v prefix) values) values))

unfoldable pub dynamic_value_suggestions :
    Text → Text → List Text → SuggestionKind → List FilterSuggestion
unfolding value_suggestion to_ascii_lowercase prefix_suggestions
dynamic_value_suggestions k prefix values kind =
    each (λ v. value_suggestion k v kind) (prefix_suggestions values (to_ascii_lowercase prefix) 64)

unfoldable pub operator_suggestions : Text → Text → SuggestionKind → List FilterSuggestion
unfolding value_suggestion text
operator_suggestions k prefix kind =
    each (λ o. value_suggestion k o kind) (keep (λ o. starts_with o prefix) operators)

strip_operator : Text → List Text → Text × Text
strip_operator value [] = ([], value)
strip_operator value (o ∷ os) = elim (strip_prefix value o) [
  | some rest ↦ (o, rest)
  | none ↦ strip_operator value os
]

unfoldable pub split_operator_prefix : Text → Text × Text
unfolding strip_operator text
split_operator_prefix value =
    strip_operator value (text ">=" ∷ text "<=" ∷ text ">" ∷ text "<" ∷ text "=" ∷ [])

unfoldable pub status_values : List ℕ → List ℕ
unfolding sort_by dedup_by
status_values statuses =
    dedup_by ◌==◌ (sort_by leb (if is_empty statuses then common_status_buckets else statuses))

unfoldable pub status_suggestions : Text → List ℕ → List FilterSuggestion
unfolding status_values split_operator_prefix operator_suggestions value_suggestion sort_and_dedup
    show_uint text
status_suggestions prefix statuses =
    let (operator, number_prefix) = split_operator_prefix prefix in
    sort_and_dedup (
      (if is_empty number_prefix then operator_suggestions (text "status") prefix status else [])
      ++ each (λ s. value_suggestion (text "status") (operator ++ s) status)
          (keep (λ s. starts_with s number_prefix) (each show_uint (status_values statuses))))

unfoldable pub duration_suggestions : Text → List FilterSuggestion
unfolding split_operator_prefix operator_suggestions value_suggestion sort_and_dedup text
duration_suggestions prefix =
    let (operator, duration_prefix) = split_operator_prefix prefix in
    sort_and_dedup (
      (if is_empty duration_prefix
        then operator_suggestions (text "duration") prefix duration
        else [])
      ++ each (λ p. value_suggestion (text "duration") (operator ++ p) duration)
          (keep (λ p. starts_with p duration_prefix) duration_presets))

unfoldable pub content_type_suggestions : Text → List Text → List FilterSuggestion
unfolding static_value_suggestions dynamic_value_suggestions sort_and_dedup text
content_type_suggestions prefix content_types = sort_and_dedup (
    static_value_suggestions (text "type") prefix content_type_aliases content_type
    ++ dynamic_value_suggestions (text "type") prefix content_types content_type)

unfoldable pub value_suggestions : Text → Text → FilterIndex → List FilterSuggestion
unfolding text static_value_suggestions dynamic_value_suggestions status_suggestions
    content_type_suggestions duration_suggestions key_suggestions
value_suggestions k value_prefix index =
    if text_eq k (text "method")
    then static_value_suggestions k value_prefix methods method
    else if text_eq k (text "host")
    then dynamic_value_suggestions k value_prefix index.hosts host
    else if text_eq k (text "path")
    then []
    else if text_eq k (text "status")
    then status_suggestions value_prefix index.statuses
    else if text_eq k (text "type")
    then content_type_suggestions value_prefix index.content_types
    else if text_eq k (text "has")
    then static_value_suggestions k value_prefix has_values has_value
    else if text_eq k (text "error") || text_eq k (text "tls")
    then static_value_suggestions k value_prefix booleans boolean
    else if text_eq k (text "duration")
    then duration_suggestions value_prefix
    else key_suggestions k

unfoldable pub build_filter_suggestions : Text → ℕ → FilterIndex → List FilterSuggestion
unfolding current_token clamp_to_char_boundary take_bytes drop_bytes split_once value_suggestions
    key_suggestions byte_len
build_filter_suggestions s at index =
    let token = current_token s at in
    let cursor = clamp_to_char_boundary s (min at (byte_len s)) in
    let before_cursor = drop_bytes token.start (take_bytes cursor s) in
    elim (split_once before_cursor b':') [
      | none ↦ key_suggestions before_cursor
      | some (k, value_prefix) ↦ value_suggestions k value_prefix index
    ]
