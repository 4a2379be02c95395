-- ===== src/Cbor/Heads.antt =====
-- The heads of `CborReader` in crates/km43/src/cbor.rs: accounting, walks and the search for repeats.
--
-- `search` walks a reader of its own over pairs that were read once already, with `checks` off, and
-- such a reader never searches. So the methods take the search as an argument: it is refused for
-- the reader that the search makes (`stuck`), and is `search_key` for every other.
use km.Prelude.{ℕ, zero, suc, ◌-◌, ◌*◌, Bool, true, false, List}
use km.Prelude.{Option, none, some, ◌&&◌, not, length, get_elem?, take, drop, Result, ok, err}
use km.Prelude.{if◌then◌else◌, ltb, leb, ◌==◌, usize_max, sat_add, ok_or}
use km.Cbor.Types.{
  CborError, Head, KeyRank, Unsettled, Nesting, Act, bind_on, ◌>>=◌, ◌>>◌, pure, lift, end_of_input,
  key_not_integer, repeated_key, stuck,
}
use km.Cbor.Nest.{settle, at_key, count_item, push, read_key}
use km.Cbor.Bytes.{CborReader, new, in_nest, argument, decode}

-- The key that a head is, where a map's key belongs.
abbrev pub rank_of : Head → Result CborError KeyRank
rank_of (Head.unsigned argument) = ok (record { negative = false; argument = argument })
rank_of (Head.negative argument) = ok (record { negative = true; argument = argument })
rank_of (Head.bytes raw) = err key_not_integer
rank_of (Head.text raw) = err key_not_integer
rank_of (Head.array n) = err key_not_integer
rank_of (Head.map n) = err key_not_integer
rank_of (Head.bool b) = err key_not_integer

abbrev pub Search : Type 0
Search = CborReader → Unsettled → Result CborError (Unit {0})

-- `self.find(key)?`, which leaves the reader as it is.
abbrev pub run_search : Search → Unsettled → Act CborReader (Unit {0})
run_search find key r = (r, find r key)

abbrev pub settle_with : Search → Option Unsettled → Act CborReader (Unit {0})
settle_with find none = pure tt
settle_with find (some key) = run_search find key

-- `CborReader::settle_skipped`.
unfoldable pub settle_skipped : Search → Act CborReader (Unit {0})
settle_skipped find r = settle_with find r.skipped (record r { skipped = none })

-- What is done with a key that was read: by `read_key`'s answer and `walking`.
abbrev pub settle_key : Search → Bool → Option Unsettled → Act CborReader (Unit {0})
settle_key find true (some key) r = run_search find key r
settle_key find true none r = (r, ok tt)
settle_key find false unsettled r = (record r { unsettled = unsettled }, ok tt)

abbrev pub check_key : Search → ℕ → KeyRank → Act CborReader (Unit {0})
check_key find at key r =
    if r.checks
    then bind_on (in_nest (read_key key at) r) (settle_key find r.walking)
    else (r, ok tt)

-- The part of `head` between decoding and counting.
abbrev pub note_head : Search → Bool → ℕ → Head → Act CborReader (Unit {0})
note_head find true at head r = bind_on (r, rank_of head) (check_key find at)
note_head find false at head r =
    if r.walking then (r, ok tt) else (record r { unsettled = none }, ok tt)

-- The container that a head opens.
abbrev pub open_head : Head → Act CborReader (Unit {0})
open_head (Head.array n) r = in_nest (push Nesting.array n r.next) r
open_head (Head.map pairs) r =
    if ltb usize_max (pairs * 2)
    then (r, err end_of_input)
    else in_nest (push Nesting.map (pairs * 2) r.next) r
open_head (Head.unsigned n) r = (r, ok tt)
open_head (Head.negative n) r = (r, ok tt)
open_head (Head.bytes raw) r = (r, ok tt)
open_head (Head.text raw) r = (r, ok tt)
open_head (Head.bool b) r = (r, ok tt)

abbrev pub first_byte : Act CborReader ℕ
first_byte r =
    bind_on (r, ok_or (get_elem? r.source r.next) end_of_input)
      (λ first r. (record r { next = sat_add r.next 1 }, ok first))

-- `head` behind `settle_skipped`, on a settled nest.
abbrev pub settled_head : Search → Act CborReader Head
settled_head find r =
    let key = at_key r.nest in
    let at = r.next in
    (do
      first ← first_byte
      head ← decode first
      note_head find key at head
      in_nest count_item
      open_head head
      pure head)
      r

abbrev pub settle_nest : Act CborReader (Unit {0})
settle_nest r = (record r { nest = settle r.nest }, ok tt)

abbrev pub settle_unless_walking : Search → Act CborReader (Unit {0})
settle_unless_walking find r = if r.walking then (r, ok tt) else settle_skipped find r

-- `CborReader::head`.
unfoldable pub head_with : Search → Act CborReader Head
head_with find = do settle_unless_walking find; settle_nest; settled_head find

-- The loop of `CborReader::walk`, on fuel: a head takes a byte at least.
unfoldable pub walk_from : Search → ℕ → ℕ → Act CborReader (Unit {0})
walk_from find zero floor r = (r, err stuck)
walk_from find (suc fuel) floor r =
    let settled = record r { nest = settle r.nest } in
    let more = bind_on (head_with find settled) (λ _. walk_from find fuel floor) in
    if leb settled.nest.depth floor then (settled, ok tt) else more

-- `CborReader::walk`.
unfoldable pub walk : Search → Act CborReader (Unit {0})
walk find r =
    let settled = record r { nest = settle r.nest } in
    bind_on (head_with find settled)
      (λ _. walk_from find (suc (length r.source)) settled.nest.depth)

abbrev pub stop_walking :
    Bool → CborReader × Result CborError (Unit {0}) → CborReader × Result CborError (Unit {0})
stop_walking was (r, walked) = (record r { walking = was }, walked)

abbrev pub start_walk : Search → Act CborReader (Unit {0})
start_walk find r =
    stop_walking r.walking
      (walk find (record r { skipped = r.unsettled; unsettled = none; walking = true }))

-- `CborReader::skip`.
unfoldable pub skip_with : Search → Act CborReader (Unit {0})
skip_with find = do settle_skipped find; start_walk find

-- The search of the reader that a search makes: it looks for no repeats.
abbrev pub no_search : Search
no_search r key = err stuck

abbrev pub same_key : KeyRank → KeyRank → Bool
same_key a b = same_sign a.negative b.negative && a.argument == b.argument
  where
    same_sign : Bool → Bool → Bool
    same_sign true b = b
    same_sign false b = not b

abbrev pub search_pair : KeyRank → Head → Act CborReader (Unit {0})
search_pair key head = do
  found ← lift (rank_of head)
  lift (if same_key found key then err repeated_key else ok tt)
  skip_with no_search

abbrev pub go_on :
    (CborReader → Result CborError (Unit {0}))
    → CborReader × Result CborError (Unit {0})
    → Result CborError (Unit {0})
go_on k (r, ok _) = k r
go_on k (r, err why) = err why

-- The loop of `search` over the pairs, on fuel: a pair takes a byte at least.
unfoldable pub search_from : ℕ → KeyRank → CborReader → Result CborError (Unit {0})
search_from zero key pairs = err stuck
search_from (suc fuel) key pairs =
    let step = bind_on (head_with no_search pairs) (search_pair key) in
    let more = go_on (search_from fuel key) step in
    if ltb pairs.next (length pairs.source) then more else ok tt

abbrev pub search_in : List ℕ → Unsettled → Result CborError (Unit {0})
search_in earlier key =
    search_from (suc (length earlier)) key.key (record (new earlier) { checks = false })

-- `CborReader::search`.
unfoldable pub search_key : Search
search_key r key =
    if leb key.from key.to && leb key.to (length r.source)
    then search_in (take (key.to - key.from) (drop key.from r.source)) key
    else err end_of_input
