-- ===== src/Storage/Compress/Dict/Search.antt =====
-- The binary search of `compress_col_dict_int` in lib/storage/compress.c finds what is there.
use napastak.Base.{ℕ, zero, suc, ◌+◌, ◌-◌, ◌/◌, ◌≤◌, ◌<◌, ◌≡◌, List, arith, length, get_or, All, In}
use napastak.Storage.Batch.{IsWord}
use napastak.Storage.Compress.Sort.{signed_lt}
use napastak.Storage.Compress.Sort.Order.{Ascending, Ascending-get_or, All-get_or, In-get_or}
use napastak.Storage.Compress.Dict.{binary_search}

-- Where `v` stands at an index of the interval that is left, the search returns such an index.
binary_search_found :
    (fuel : ℕ) (uniq : List ℕ) (v lo hi i : ℕ)
    → Ascending uniq
    → All IsWord uniq
    → hi ≤ lo + fuel
    → lo ≤ i
    → i < hi
    → hi ≤ length uniq
    → get_or uniq i 0 ≡ v
    → (binary_search fuel uniq v lo hi < length uniq)
      × (get_or uniq (binary_search fuel uniq v lo hi) 0 ≡ v)
unfolding binary_search signed_lt
binary_search_found zero uniq v lo hi i asc w f l h b e = absurd (omega arith)
binary_search_found (suc fuel) uniq v lo hi i asc w f l h b e =
    let m : ℕ = (lo + hi - 1) / 2 in
    ground (
      arith,
      Ascending-get_or uniq i m 0 asc,
      Ascending-get_or uniq m i 0 asc,
      All-get_or IsWord uniq m 0 w,
      All-get_or IsWord uniq i 0 w,
      binary_search_found fuel uniq v (m + 1) hi i asc w,
      binary_search_found fuel uniq v lo m i asc w,
    )

pub binary_search_lem :
    (uniq : List ℕ) (v : ℕ)
    → Ascending uniq
    → All IsWord uniq
    → In v uniq
    → let c = binary_search (length uniq) uniq v 0 (length uniq) in
      (c < length uniq) × (get_or uniq c 0 ≡ v)
binary_search_lem uniq v asc w m =
    let (i, p, q) = In-get_or v 0 uniq m in
    binary_search_found (length uniq) uniq v 0 (length uniq) i asc w (omega arith) (omega arith) p
      (omega arith) q
