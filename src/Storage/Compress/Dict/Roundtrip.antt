-- ===== src/Storage/Compress/Dict/Roundtrip.antt =====
-- Decoding what the dictionary encoders of lib/storage/compress.c produce.
use napastak.Base.{
  ℕ, zero, suc, ◌<◌, ◌≡◌, String, Option, none, some, List, [], ◌∷◌, map, arith, length, get_elem?,
  get_or, All, In, All-mono, Option-cases, inl, inr, nat_eq, string_eq, subst,
}
use napastak.Storage.Batch.{IsWord}
use napastak.Storage.Compress.Sort.{insertion_sort}
use napastak.Storage.Compress.Sort.Order.{
  Ascending-insertion_sort, In-insertion_sort, All-insertion_sort, length-insertion_sort,
}
use napastak.Storage.Compress.Dict.{
  Dict, collect, linear_search, int_dict, dict_int, text_dict, dict_text, dict_decode,
}
use napastak.Storage.Compress.Dict.Search.{binary_search_lem}
use napastak.Storage.Compress.Dict.Collect.{
  Covered, Holds, collect-Covered, collect-All, linear_search-get_or, code_cells_decode,
}

module _ (cs : List (Option ℕ)) (words : All (Holds IsWord) cs) (uniq : List ℕ)
    (got : collect [] cs ≡ some uniq) where
  int_dict_decode :
      (j v : ℕ)
      → get_elem? cs j ≡ some (some v)
      → get_elem? (dict_decode 0 (int_dict (insertion_sort uniq) cs)) j ≡ some v
  unfolding dict_decode
  int_dict_decode j v h =
      let sorted : List ℕ = insertion_sort uniq in
      let (fine, small) = collect-All IsWord [] cs uniq got tt words (omega arith) in
      let fine' = All-insertion_sort IsWord uniq fine in
      let search = λ (w : ℕ) (m : In w sorted).
        binary_search_lem sorted w (Ascending-insertion_sort uniq) fine' m in
      code_cells_decode sorted 0 _ cs j v (omega (arith, length-insertion_sort uniq)) search
        (All-mono _ _ moved cs (collect-Covered [] cs uniq got).1) h
    where
      moved : (c : Option ℕ) → Covered uniq c → Covered (insertion_sort uniq) c
      moved none m = tt
      moved (some w) m = In-insertion_sort w uniq m

-- Where the integer encoder accepts a column of 64-bit values, every row with a value is decoded to it.
pub dict_decode-dict_int :
    (cs : List (Option ℕ)) (c : Dict ℕ) (j v : ℕ)
    → All (Holds IsWord) cs
    → dict_int cs ≡ some c
    → get_elem? cs j ≡ some (some v)
    → get_elem? (dict_decode 0 c) j ≡ some v
unfolding dict_int
dict_decode-dict_int cs c j v w e h = elim (Option-cases (collect [] cs)) [
  | inl none' ↦ cc (rw (none', dict_int) at e)
  | inr (uniq, got) ↦
      let same : int_dict (insertion_sort uniq) cs ≡ c = cc (rw (got, dict_int) at e) in
      subst (λ t. get_elem? (dict_decode 0 t) j ≡ some v) same (int_dict_decode cs w uniq got j v h)
]

text_dict_decode :
    (cs : List (Option String)) (uniq : List String) (j : ℕ) (v : String)
    → collect [] cs ≡ some uniq
    → get_elem? cs j ≡ some (some v)
    → get_elem? (dict_decode "" (text_dict uniq cs)) j ≡ some v
unfolding dict_decode
text_dict_decode cs uniq j v got h =
    let (_, small) = collect-All (λ s. Unit {0}) [] cs uniq got tt (trivial cs) (omega arith) in
    code_cells_decode uniq "" (λ w. linear_search uniq w 0) cs j v small search
      (collect-Covered [] cs uniq got).1 h
  where
    trivial : (l : List (Option String)) → All (Holds (λ s. Unit {0})) l
    trivial [] = tt
    trivial (none ∷ l) = (tt, trivial l)
    trivial (some s ∷ l) = (tt, trivial l)

    search :
        (w : String)
        → In w uniq
        → (linear_search uniq w 0 < length uniq) × (get_or uniq (linear_search uniq w 0) "" ≡ w)
    search w m =
        let (k, p, q, r) = linear_search-get_or uniq w "" 0 m in
        let p' : linear_search uniq w 0 ≡ k = omega (arith, p) in (omega (arith, p'), rw p' r)

get_elem?-map-some :
    (cs : List String) (j : ℕ) (v : String)
    → get_elem? cs j ≡ some v
    → get_elem? (map some cs) j ≡ some (some v)
get_elem?-map-some [] j v h = cc
get_elem?-map-some (x ∷ cs) zero v h = cc
get_elem?-map-some (x ∷ cs) (suc j) v h = get_elem?-map-some cs j v h

-- Where the text encoder accepts a column, every text of it is decoded to itself.
pub dict_decode-dict_text :
    (cs : List String) (c : Dict String) (j : ℕ) (v : String)
    → dict_text cs ≡ some c
    → get_elem? cs j ≡ some v
    → get_elem? (dict_decode "" c) j ≡ some v
unfolding dict_text
dict_decode-dict_text cs c j v e h = elim (Option-cases (collect [] (map some cs))) [
  | inl none' ↦ cc (rw (none', dict_text) at e)
  | inr (uniq, got) ↦
      let same : text_dict uniq (map some cs) ≡ c = cc (rw (got, dict_text) at e) in
      subst (λ t. get_elem? (dict_decode "" t) j ≡ some v) same
        (text_dict_decode (map some cs) uniq j v got (get_elem?-map-some cs j v h))
]
