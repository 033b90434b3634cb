-- ===== src/RedisRepository/Scan.antt =====
-- What scanKeys of cpp/src/redis_repository.cpp returns.
use mini_ocs_nos.Base.{
  ℕ, zero, suc, ◌≤◌, ◌≡◌, ◌≢◌, refl, ap, subst, ◌∙◌, Bool, true, false, ◌||◌, List, [], ◌∷◌, ◌++◌,
  arith, inl, inr, Bool-cases, if◌then◌else◌, length, length-append, All, ◌==◌,
}
use mini_ocs_nos.Base.Text.{Text}
use mini_ocs_nos.Base.TextMap.{IsSorted}
use mini_ocs_nos.Base.Sort.{sort_by, insert_by, keyed, sort_by-IsSorted}
use mini_ocs_nos.Base.Distinct.{Distinct, Other, adjacent_find_iff}
use mini_ocs_nos.Base.Outcome.{returns, throws, Exception, >>=-returns}
use mini_ocs_nos.RedisRepository.Streams.{
  contains, add_page, scan_pages, scan_sorted, scan_keys, itself,
}

contains-append :
    (xs ys : List Text) (k : Text) → contains (xs ++ ys) k ≡ (contains xs k || contains ys k)
unfolding contains
contains-append [] ys k = refl
contains-append (x ∷ xs) ys k = ground (arith, contains-append xs ys k)

contains-insert_by :
    (x : Text) (xs : List Text) (k : Text)
    → contains (insert_by itself x xs) k ≡ contains (x ∷ xs) k
unfolding contains insert_by
contains-insert_by x [] k = refl
contains-insert_by x (y ∷ ys) k = ground (arith, contains-insert_by x ys k)

contains-sort_by : (xs : List Text) (k : Text) → contains (sort_by itself xs) k ≡ contains xs k
unfolding contains sort_by
contains-sort_by [] k = refl
contains-sort_by (x ∷ xs) k =
    contains-insert_by x (sort_by itself xs) k ∙ ground (arith, contains-sort_by xs k)

length-insert_by : (x : Text) (xs : List Text) → length (insert_by itself x xs) ≡ suc (length xs)
unfolding insert_by
length-insert_by x [] = refl
length-insert_by x (y ∷ ys) = ground (arith, length-insert_by x ys)

length-sort_by : (xs : List Text) → length (sort_by itself xs) ≡ length xs
unfolding sort_by
length-sort_by [] = refl
length-sort_by (x ∷ xs) = length-insert_by x (sort_by itself xs) ∙ ap suc (length-sort_by xs)

Others-snoc :
    (z : Text) (xs : List Text) (k : Text)
    → All (Other itself z) xs
    → z ≢ k
    → All (Other itself z) (xs ++ (k ∷ []))
Others-snoc z [] k a h = (h, tt)
Others-snoc z (x ∷ xs) k a h = (a.0, Others-snoc z xs k a.1 h)

Distinct-snoc :
    (xs : List Text) (k : Text)
    → Distinct itself xs
    → contains xs k ≡ false
    → Distinct itself (xs ++ (k ∷ []))
unfolding contains
Distinct-snoc [] k d h = (tt, tt)
Distinct-snoc (x ∷ xs) k d h =
    (Others-snoc x xs k d.0 (ground arith), Distinct-snoc xs k d.1 (ground arith))

-- A result without repetitions, within the bound.
abbrev IsBounded : ℕ → List Text → Type 0
IsBounded max_results result = Distinct itself result × (length result ≤ max_results)

add_page-IsBounded :
    (max_results : ℕ) (page result result' : List Text)
    → IsBounded max_results result
    → add_page max_results page result ≡ returns result'
    → IsBounded max_results result'
unfolding add_page
add_page-IsBounded max_results [] result result' b h =
    let e : result ≡ result' = ground arith in rw e at b
add_page-IsBounded max_results (k ∷ page) result result' b h =
    elim (Bool-cases (contains result k)) [
      | inl e ↦ add_page-IsBounded max_results page result result' b (rw e at h)
      | inr e ↦ elim (Bool-cases (length result == max_results)) [
        | inl f ↦ ground arith
        | inr f ↦
            add_page-IsBounded max_results page (result ++ (k ∷ [])) result'
              (Distinct-snoc result k b.0 e, ground (arith, length-append result (k ∷ []), b.1))
              (ground arith)
      ]
    ]

contains-add_page :
    (max_results : ℕ) (page result result' : List Text) (k : Text)
    → add_page max_results page result ≡ returns result'
    → contains result' k ≡ (contains result k || contains page k)
unfolding add_page contains
contains-add_page max_results [] result result' k h = ground (arith, ap contains)
contains-add_page max_results (j ∷ page) result result' k h =
    elim (Bool-cases (contains result j)) [
      | inl e ↦ ground (
        arith,
        contains-add_page max_results page result result' k (rw e at h),
        ap (contains result),
      )
      | inr e ↦ elim (Bool-cases (length result == max_results)) [
        | inl f ↦ ground arith
        | inr f ↦ ground (
          arith,
          contains-add_page max_results page (result ++ (j ∷ [])) result' k (ground arith),
          contains-append result (j ∷ []) k,
        )
      ]
    ]

-- The keys of the pages that are visited, until the cursor is 0 again.
unfoldable pub visited : ℕ → (ℕ → ℕ × List Text) → ℕ → List Text
visited zero scan cursor = []
visited (suc pages) scan cursor =
    let more = visited pages scan (scan cursor).0 in
    if (scan cursor).0 == 0 then (scan cursor).1 else (scan cursor).1 ++ more

scan_pages-IsBounded :
    (pages : ℕ) (scan : ℕ → ℕ × List Text) (max_results cursor : ℕ) (result ks : List Text)
    → IsBounded max_results result
    → scan_pages pages scan max_results cursor result ≡ returns ks
    → IsBounded max_results ks
      × ((k : Text) → contains ks k ≡ (contains result k || contains (visited pages scan cursor) k))
unfolding scan_pages visited
scan_pages-IsBounded zero scan max_results cursor result ks b h = cc
scan_pages-IsBounded (suc pages) scan max_results cursor result ks b h =
    let (result', e, g) = >>=-returns (add_page max_results (scan cursor).1 result) _ h in
    let b' = add_page-IsBounded max_results (scan cursor).1 result result' b e in
    elim (Bool-cases ((scan cursor).0 == 0)) [
      | inl last ↦
          let same : result' ≡ ks = ground arith in
          (
            rw same at b',
            λ k. ground (
              arith,
              ap (λ (x : List Text). contains x k) same,
              contains-add_page max_results (scan cursor).1 result result' k e,
            ),
          )
      | inr go ↦
          let (b'', found) =
            scan_pages-IsBounded pages scan max_results (scan cursor).0 result' ks b'
              (rw go at g) in
          (
            b'',
            λ k. ground (
              arith,
              found k,
              contains-add_page max_results (scan cursor).1 result result' k e,
              contains-append (scan cursor).1 (visited pages scan (scan cursor).0) k,
            ),
          )
    ]

-- A list that a scan may return.
abbrev pub IsScan : ℕ → (ℕ → ℕ × List Text) → ℕ → List Text → Type 0
IsScan pages scan max_results ks =
    IsSorted (keyed itself ks)
    × (length ks ≤ max_results)
    × ((k : Text) → contains ks k ≡ contains (visited pages scan 0) k)

scan_sorted-IsScan :
    (pages : ℕ) (scan : ℕ → ℕ × List Text) (max_results : ℕ) (ks : List Text)
    → scan_sorted pages scan max_results ≡ returns ks
    → IsScan pages scan max_results ks
unfolding scan_sorted
scan_sorted-IsScan pages scan max_results ks h =
    let (result, run, g) = >>=-returns (scan_pages pages scan max_results 0 []) _ h in
    let same : sort_by itself result ≡ ks = cc in
    let (b, found) =
      scan_pages-IsBounded pages scan max_results 0 [] result (tt, omega arith) run in
    subst (IsScan pages scan max_results) same (
      sort_by-IsSorted itself result ((adjacent_find_iff itself result).1 b.0),
      omega (arith, length-sort_by result, b.1),
      λ k. contains-sort_by result k ∙ found k,
    )

-- The keys that scanKeys returns are in strictly rising order, no more than the bound, and exactly
-- the ones of the pages that SCAN with the pattern and the count 128 handed over until its cursor
-- was 0 again, at most 4096 pages.
pub scan_keys-returns :
    (scan : ℕ → Text → ℕ → ℕ × List Text) (pattern : Text) (max_results : ℕ) (ks : List Text)
    → scan_keys scan pattern max_results ≡ returns ks
    → IsScan 4096 (λ cursor. scan cursor pattern 128) max_results ks
unfolding scan_keys
scan_keys-returns scan [] max_results ks h = cc
scan_keys-returns scan (c ∷ pattern) max_results ks h =
    scan_sorted-IsScan 4096 pages max_results ks (accepted (max_results == 0) h)
  where
    pages : ℕ → ℕ × List Text
    pages cursor = scan cursor (c ∷ pattern) 128

    accepted :
        (b : Bool)
        → (if b then throws Exception.invalid_argument else scan_sorted 4096 pages max_results)
          ≡ returns ks
        → scan_sorted 4096 pages max_results ≡ returns ks
    accepted true h = cc
    accepted false h = h
