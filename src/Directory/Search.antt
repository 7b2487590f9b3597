-- ===== src/Directory/Search.antt =====
-- About the loop of `discoverySearch` and its bound.
use general_tools.Common.{
  ℕ, zero, suc, ◌+◌, ◌-◌, ◌≤◌, ◌<◌, ◌≡◌, refl, ap, sym, Bool, true, false, List, [], ◌∷◌, Text,
  ◌==◌, get_or, length, length-set, arith, Bool-cases, inl, inr,
}
use general_tools.Wire.{event_buffer_size, space, token_end, next_token}
use general_tools.Directory.{Directory}
use general_tools.Directory.Receive.{search_loop, discovery_search_from}

end-le-token_end : (buf : List ℕ) (event rounds end : ℕ) → end ≤ token_end buf event rounds end
unfolding token_end
end-le-token_end buf event zero end = omega arith
end-le-token_end buf event (suc rounds) end =
    ground (arith, end-le-token_end buf event rounds (end + 1))

end-lt-token_end :
    (buf : List ℕ) (event rounds end : ℕ)
    → 0 < rounds
    → (get_or buf (event + end) 0 == space) ≡ false
    → (get_or buf (event + end) 0 == 0) ≡ false
    → end < token_end buf event rounds end
unfolding token_end
end-lt-token_end buf event zero end some_round not_space not_nul = absurd (omega arith)
end-lt-token_end buf event (suc rounds) end some_round not_space not_nul =
    ground (arith, end-le-token_end buf event rounds (end + 1))

token_end-space :
    (buf : List ℕ) (event rounds end : ℕ)
    → 0 < rounds
    → (get_or buf (event + end) 0 == space) ≡ true
    → token_end buf event rounds end ≡ end
unfolding token_end
token_end-space buf event zero end some_round at_space = absurd (omega arith)
token_end-space buf event (suc rounds) end some_round at_space = ground arith

start-lt-next_token :
    (buf : List ℕ) (event start : ℕ)
    → start < event_buffer_size
    → (get_or buf (event + start) 0 == 0) ≡ false
    → start < (next_token buf event start).0
unfolding next_token
start-lt-next_token buf event start low not_nul =
    elim (Bool-cases (get_or buf (event + start) 0 == space)) [
      | inl at_space ↦ ground (
        arith,
        token_end-space buf event (event_buffer_size - start) start (omega arith) at_space,
      )
      | inr word ↦ ground (
        arith,
        end-lt-token_end buf event (event_buffer_size - start) start (omega arith) word not_nul,
      )
    ]

length-next_token :
    (buf : List ℕ) (event start : ℕ) → length (next_token buf event start).1 ≡ length buf
unfolding next_token
length-next_token buf event start =
    ground (arith, length-set buf (event + token_end buf event (event_buffer_size - start) start) 0)

get_or-past : (buf : List ℕ) (i : ℕ) → length buf ≤ i → get_or buf i 0 ≡ 0
get_or-past [] i h = refl
get_or-past (x ∷ buf) zero h = absurd (omega arith)
get_or-past (x ∷ buf) (suc i) h = get_or-past buf i (omega arith)

search_loop-more :
    (on_network : Text → Bool) (fuel more : ℕ) (d : Directory) (buf : List ℕ) (event pos : ℕ)
    → length buf ≤ event + event_buffer_size
    → length buf ≤ event + pos + fuel
    → fuel ≤ more
    → search_loop on_network more d buf event pos ≡ search_loop on_network fuel d buf event pos
unfolding search_loop
search_loop-more on_network zero zero d buf event pos short enough le = refl
search_loop-more on_network zero (suc more) d buf event pos short enough le =
    ground (arith, get_or-past buf (event + pos) (omega arith))
search_loop-more on_network (suc fuel) zero d buf event pos short enough le = absurd (omega arith)
search_loop-more on_network (suc fuel) (suc more) d buf event pos short enough le =
    elim (Bool-cases (get_or buf (event + pos) 0 == 0)) [
      | inl nul ↦ rw nul refl
      | inr word ↦
          let low : pos < event_buffer_size = ground (arith, get_or-past buf (event + pos)) in
          let on = start-lt-next_token buf event pos low word in
          let same = length-next_token buf event pos in
          let later =
            search_loop-more on_network fuel more d (next_token buf event pos).1 event
              (next_token buf event pos).0 (omega (arith, same)) (omega (arith, same, on))
              (omega arith) in
          ground (arith, later)
    ]

-- The handler of a search runs its loop to the end: any bound from the length of the buffer on gives
-- the same replies. The buffer behind the arguments is not longer than the event buffer.
pub search_ends :
    (on_network : Text → Bool) (d : Directory) (buf : List ℕ) (event bound : ℕ)
    → length buf ≤ event + event_buffer_size
    → length buf ≤ bound
    → discovery_search_from on_network d buf event ≡ (d, search_loop on_network bound d buf event 0)
unfolding discovery_search_from
search_ends on_network d buf event bound short enough =
    ap (λ replies. (d, replies))
      (sym
        (search_loop-more on_network (length buf) bound d buf event 0 short (omega arith) enough))
