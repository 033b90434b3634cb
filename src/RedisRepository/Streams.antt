-- ===== src/RedisRepository/Streams.antt =====
-- The operations of RedisRepository on streams and on the key space (cpp/src/redis_repository.cpp).
-- What the server replies is an argument.
use mini_ocs_nos.Base.{
  ℕ, zero, suc, ◌-◌, ◌*◌, ◌%◌, ◌^◌, min, Bool, true, false, none, some, List, [], ◌∷◌, ◌++◌, leb,
  ◌==◌, if◌then◌else◌, ite, length,
}
use mini_ocs_nos.Base.Text.{Text, text_discrete}
use mini_ocs_nos.Base.TextMap.{TextMap, find}
use mini_ocs_nos.Base.Sort.{sort_by}
use mini_ocs_nos.Base.Outcome.{Outcome, returns, throws, Exception, ◌>>=◌}
use mini_ocs_nos.DeviceTypes.{ℤ, pos, negsuc}
use mini_ocs_nos.RedisRepository.Events.{StreamMessage, parse_event}

-- The loop over the items of a stream.
unfoldable pub parse_messages : List (Text × TextMap Text) → Outcome (List StreamMessage)
unfolding parse_event
parse_messages [] = returns []
parse_messages ((id, fields) ∷ items) =
    let rest = parse_messages items in
    parse_event fields >>= λ event.
    rest >>= λ messages. returns (record { id = id; event = event } ∷ messages)

-- readGroup, with the reply of XREADGROUP by stream.
unfoldable pub read_group :
    Text → TextMap (List (Text × TextMap Text)) → Outcome (List StreamMessage)
unfolding parse_messages
read_group stream raw = elim (find stream raw) [
  | none ↦ returns []
  | some items ↦ parse_messages items
]

-- readGroupIfNoPending, with the reply of the script.
unfoldable pub read_group_if_no_pending :
    Text → ℕ → TextMap (List (Text × TextMap Text)) → Outcome (List StreamMessage)
unfolding read_group
read_group_if_no_pending stream count raw =
    if count == 0 then throws Exception.invalid_argument else read_group stream raw

-- An entry of XPENDING: its id and for how long it has been idle; the owner and the number of
-- deliveries are not used.
pub record PendingEntry : Type 0 where
  pub id : Text
  pub idle_ms : ℕ

-- The loop that collects the ids, which stops as soon as it has as many as asked for.
unfoldable pub collect_idle : ℕ → ℕ → List PendingEntry → List Text
collect_idle wanted min_idle [] = []
collect_idle wanted min_idle (entry ∷ pending) =
    let same = collect_idle wanted min_idle pending in
    let fewer = collect_idle (wanted - 1) min_idle pending in
    if leb min_idle entry.idle_ms
    then (if wanted == 1 then entry.id ∷ [] else entry.id ∷ fewer)
    else same

-- The count of XPENDING: a size_t product, at most 100.
abbrev pub scan_count : ℕ → ℕ
scan_count count = min 100 (count * 10 % 2 ^ 64)

-- claimPending: `xpending` is the reply to XPENDING for a number of entries, `xclaim` the entries
-- that XCLAIM hands over for a list of ids.
unfoldable pub claim_pending :
    (ℕ → List PendingEntry)
    → (List Text → List (Text × TextMap Text))
    → ℤ
    → ℕ
    → Outcome (List StreamMessage)
unfolding collect_idle parse_messages
claim_pending xpending xclaim (negsuc n) count = throws Exception.invalid_argument
claim_pending xpending xclaim (pos min_idle) count =
    if count == 0
    then throws Exception.invalid_argument
    else elim (collect_idle count min_idle (xpending (scan_count count))) [
      | [] ↦ returns []
      | id ∷ ids ↦ parse_messages (xclaim (id ∷ ids))
    ]

unfoldable pub contains : List Text → Text → Bool
contains [] k = false
contains (x ∷ xs) k = let rest = contains xs k in ite (text_discrete x k) true rest

-- The loop over a page of keys; `seen` has the keys of `result`, so that `result` stands for both.
unfoldable pub add_page : ℕ → List Text → List Text → Outcome (List Text)
unfolding contains
add_page max_results [] result = returns result
add_page max_results (key ∷ page) result =
    let skip = add_page max_results page result in
    let add = add_page max_results page (result ++ (key ∷ [])) in
    if contains result key
    then skip
    else if length result == max_results
    then throws Exception.runtime_error
    else add

-- The loop over the pages, for at most `pages` more of them; `scan` is the reply of SCAN to a
-- cursor, with the pattern and the count of the caller: the next cursor and a page.
unfoldable pub scan_pages : ℕ → (ℕ → ℕ × List Text) → ℕ → ℕ → List Text → Outcome (List Text)
unfolding add_page
scan_pages zero scan max_results cursor result = throws Exception.runtime_error
scan_pages (suc pages) scan max_results cursor result =
    add_page max_results (scan cursor).1 result >>= λ result'.
    (let more = scan_pages pages scan max_results (scan cursor).0 result' in
      if (scan cursor).0 == 0 then returns result' else more)

abbrev pub itself : Text → Text
itself k = k

-- The loop from the first page, and the sort.
unfoldable pub scan_sorted : ℕ → (ℕ → ℕ × List Text) → ℕ → Outcome (List Text)
unfolding scan_pages
scan_sorted pages scan max_results =
    scan_pages pages scan max_results 0 [] >>= λ result. returns (sort_by itself result)

-- `scan` is the reply of SCAN to a cursor, a pattern and a count of keys to look at.
unfoldable pub scan_keys : (ℕ → Text → ℕ → ℕ × List Text) → Text → ℕ → Outcome (List Text)
scan_keys scan [] max_results = throws Exception.invalid_argument
scan_keys scan (c ∷ pattern) max_results =
    if max_results == 0
    then throws Exception.invalid_argument
    else scan_sorted 4096 (λ cursor. scan cursor (c ∷ pattern) 128) max_results
