-- ===== src/Wire.antt =====
-- The datagrams of the directory protocol, a17/dispatch/directory.cpp: splitting a received buffer
-- into tokens in place, and the text of a topic announcement. A buffer is the list of its bytes,
-- and a `char *` into it is an offset; a read past the received bytes gives the terminating NUL,
-- which the receiver has put behind them.
pub mod Tokens
pub mod Types
use general_tools.Common.{
  ℕ, zero, suc, ◌+◌, ◌-◌, ◌≤◌, ◌<◌, Bool, true, false, ◌&&◌, ◌||◌, not, Option, none, some, List,
  [], ◌∷◌, ◌++◌, Text, codes, text_eq, if◌then◌else◌, ltb, leb, ◌==◌, get_or, set, drop, is_empty,
}
use general_tools.Common.OrderedMap.{OrderedSet, add}
use general_tools.SocketTypes.{from_type}

abbrev pub event_buffer_size : ℕ
event_buffer_size = 1500

-- "DISPATCH "
abbrev pub dispatch : Text
dispatch = codes "DISPATCH "

abbrev pub no_types : Text
no_types = codes "."

-- '|'
abbrev pub sep : ℕ
sep = 124

abbrev pub space : ℕ
space = 32

abbrev pub discovery_exit : ℕ
discovery_exit = b'X'

abbrev pub discovery_available : ℕ
discovery_available = b'A'

abbrev pub discovery_remove : ℕ
discovery_remove = b'R'

abbrev pub discovery_search : ℕ
discovery_search = b'S'

-- The C string that begins at the front of the list.
unfoldable pub until_nul : List ℕ → Text
until_nul [] = []
until_nul (c ∷ cs) = if c == 0 then [] else c ∷ until_nul cs

-- The C string `&buf[i]`.
abbrev pub c_str : List ℕ → ℕ → Text
c_str buf i = until_nul (drop i buf)

-- The loop of `nextToken`: from `end` on, at most the given number of rounds.
unfoldable pub token_end : List ℕ → ℕ → ℕ → ℕ → ℕ
token_end buf event zero end = end
token_end buf event (suc rounds) end =
    let rest = token_end buf event rounds (end + 1) in
    let c = get_or buf (event + end) 0 in if c == space || c == 0 then end else rest

-- `nextToken(event, start)`, with `event` an offset into the buffer. It returns the start of the
-- next token, and the buffer with the space replaced by NUL.
unfoldable pub next_token : List ℕ → ℕ → ℕ → ℕ × List ℕ
unfolding token_end
next_token buf event start =
    if leb event_buffer_size start
    then (start, buf)
    else let end = token_end buf event (event_buffer_size - start) start in
      if end == event_buffer_size || get_or buf (event + end) 0 == 0
      then (end, buf)
      else (end + 1, set buf (event + end) 0)

-- The loop of `writeTypes`, where the flag is `*buf != 0` of the source: the last byte written so far
-- is not NUL.
unfoldable pub write_ids : Text → Bool → Bool
write_ids [] flag = flag
write_ids (c ∷ cs) flag = write_ids cs (not (c == 0))

unfoldable pub write_all : Bool → OrderedSet → Text
unfolding write_ids
write_all flag [] = []
write_all flag (t ∷ ts) = (if flag then sep ∷ [] else []) ++ (t ++ write_all (write_ids t flag) ts)

unfoldable pub write_types : OrderedSet → Text
unfolding write_all
write_types ts = if is_empty ts then no_types else write_all false ts

-- The loop of `parseTypes`: `getline` up to the separator until the end of the text.
unfoldable pub split_on_sep : Text → Text → OrderedSet → OrderedSet
split_on_sep raw [] types = add raw types
split_on_sep raw (c ∷ cs) types =
    split_on_sep (if c == sep then [] else raw ++ c ∷ []) cs
      (if c == sep then add raw types else types)

unfoldable pub parse_types : Text → OrderedSet
unfolding split_on_sep
parse_types s = if is_empty s || text_eq s no_types then [] else split_on_sep [] s []

unfoldable pub build_topic_info : Text → ℕ → Text → OrderedSet → OrderedSet → Text
unfolding write_types
build_topic_info name type address ins outs =
    name
    ++ (space
        ∷ (from_type type
            ++ (space ∷ (address ++ (space ∷ (write_types ins ++ (space ∷ write_types outs)))))))
