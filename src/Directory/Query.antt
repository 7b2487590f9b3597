-- ===== src/Directory/Query.antt =====
-- The queries for missing topics: how they are grouped into datagrams, and how often they are sent.
use general_tools.Common.{
  ltb, all, some, ℕ, ◌+◌, ◌*◌, ◌≤◌, ◌<◌, ◌≡◌, refl, ap, ap₂, sym, ◌∙◌, true, false, ◌||◌, List, [],
  ◌∷◌, ◌++◌, map, Text, if◌then◌else◌, leb, length, length-append, is_empty, arith, append_assoc,
  append-nil, All, min, Bool-cases, inl, inr,
}
use general_tools.Wire.{event_buffer_size, space, discovery_search}
use general_tools.TopicStore.{get_missing}
use general_tools.Directory.{
  Directory, datagram, query_rest, queries, query_missing_topics, query_interval_max, waits, sends,
}

-- The topics of a datagram, each behind a space.
abbrev pub words : List Text → Text
words [] = []
words (t ∷ ts) = space ∷ (t ++ words ts)

abbrev pub concat : List (List Text) → List Text
concat [] = []
concat (g ∷ gs) = g ++ concat gs

-- A way to put the requests `ts` into datagrams: at most four of them in each, in order, none left
-- out and none twice.
pub record Grouping (header : Text) (ts : List Text) (out : List Text) : Type 0 where
  pub groups : List (List Text)
  pub sent : out ≡ map (λ g. header ++ words g) groups
  pub complete : concat groups ≡ ts
  pub small : All (λ g. length g ≤ 4) groups

words-append : (g : List Text) (t : Text) → words (g ++ t ∷ []) ≡ words g ++ space ∷ t
words-append [] t = ap (◌∷◌ space) (append-nil t)
words-append (u ∷ g) t =
    ap (λ w. space ∷ w)
      (ap (◌++◌ u) (words-append g t) ∙ sym (append_assoc u (words g) (space ∷ t)))

query_rest-Grouping :
    (header buf : Text) (count : ℕ) (t : Text) (g ts all : List Text)
    → buf ≡ header ++ words (t ∷ g)
    → count ≡ length (t ∷ g)
    → all ≡ (t ∷ g) ++ ts
    → length (t ∷ g) ≤ 4
    → Grouping header all (query_rest header buf count ts)
unfolding query_rest
query_rest-Grouping header buf count t g [] all b c e small = record {
  groups = (t ∷ g) ∷ [];
  sent = rw b (ground (arith, length-append header (words (t ∷ g))));
  complete = sym e;
  small = (small, tt);
}
query_rest-Grouping header buf count t g (u ∷ ts) all b c e small =
    elim (Bool-cases (leb event_buffer_size (length buf + 1 + length u) || leb 4 count)) [
      | inl full ↦
          let ih =
            query_rest-Grouping header (header ++ space ∷ u) 1 u [] ts (u ∷ ts)
              (ap (λ w. header ++ space ∷ w) (sym (append-nil u))) refl refl (omega arith) in
          rw full (record {
            groups = (t ∷ g) ∷ ih.groups;
            sent = ap₂ ◌∷◌ b ih.sent;
            complete = ap (◌++◌ (t ∷ g)) ih.complete ∙ sym e;
            small = (small, ih.small);
          })
      | inr room ↦ rw room (
          query_rest-Grouping header (buf ++ space ∷ u) (count + 1) t (g ++ u ∷ []) ts all
            (ap (λ w. w ++ space ∷ u) b
              ∙ append_assoc header (words (t ∷ g)) (space ∷ u)
              ∙ ap (◌++◌ header) (sym (words-append (t ∷ g) u)))
            (omega (arith, c, length-append g (u ∷ [])))
            (e ∙ sym (append_assoc (t ∷ g) (u ∷ []) ts)) (ground (arith, length-append g (u ∷ []))))
    ]

-- The queries for a list of topics carry every topic exactly once and in order, at most four of them
-- in a datagram, each behind a space after the header of a search.
pub queries-Grouping :
    (guid : Text) (ts : List Text)
    → Grouping (datagram guid discovery_search []) ts (queries guid ts)
unfolding queries
queries-Grouping guid [] = record { groups = []; sent = refl; complete = refl; small = tt }
queries-Grouping guid (t ∷ ts) =
    query_rest-Grouping (datagram guid discovery_search []) _ 1 t [] ts (t ∷ ts)
      (ap (λ w. datagram guid discovery_search [] ++ space ∷ w) (sym (append-nil t))) refl refl
      (omega arith)

module _ (header : Text) where
  -- The topic fits a datagram of its own.
  abbrev pub Fits : Text → Type 0
  Fits t = length header + 1 + length t < event_buffer_size

  query_rest-short :
      (buf : Text) (count : ℕ) (ts : List Text)
      → length buf < event_buffer_size
      → All Fits ts
      → All (λ m. length m < event_buffer_size) (query_rest header buf count ts)
  unfolding query_rest
  query_rest-short buf count [] short fits = ground arith
  query_rest-short buf count (t ∷ ts) short fits =
      elim (Bool-cases (leb event_buffer_size (length buf + 1 + length t) || leb 4 count)) [
        | inl full ↦ rw full (
          short,
          query_rest-short (header ++ space ∷ t) 1 ts
              (omega (arith, length-append header (space ∷ t), fits.0)) fits.1,
        )
        | inr room ↦ rw room (
            query_rest-short (buf ++ space ∷ t) (count + 1) ts
              (ground (arith, length-append buf (space ∷ t))) fits.1)
      ]

-- No query is longer than the buffers of the pool, provided that each topic fits behind the header.
pub queries_short :
    (guid : Text) (ts : List Text)
    → All (Fits (datagram guid discovery_search [])) ts
    → All (λ m. length m < event_buffer_size) (queries guid ts)
unfolding queries
queries_short guid [] fits = tt
queries_short guid (t ∷ ts) fits =
    query_rest-short (datagram guid discovery_search []) _ 1 ts
      (omega (arith, length-append (datagram guid discovery_search []) (space ∷ t), fits.0)) fits.1

queries-fit :
    (ts : List Text)
    → All (λ m. length m < event_buffer_size) ts
    → all (λ m. ltb (length m) event_buffer_size) ts ≡ true
queries-fit [] fits = refl
queries-fit (t ∷ ts) fits = ground (arith, fits, queries-fit ts fits.1)

-- While topics are missing, and each of them fits a datagram of its own, each round of queries waits for
-- the present interval, which is then doubled up to 16 seconds, and sends its queries; when none is
-- missing the timer ends. A cancelled timer does nothing.
pub query_missing_topics_lem :
    (d : Directory)
    → d.interval ≤ query_interval_max
    → All (Fits (datagram d.my_guid discovery_search [])) (get_missing d.topics)
    → (query_missing_topics d true ≡ some (d, []))
      × (query_missing_topics d false
          ≡ some (
              if is_empty (get_missing d.topics) then (record d { timer_active = false }, []) else (
                record d { interval = min (2 * d.interval) query_interval_max },
                waits d.interval ∷ map sends (queries d.my_guid (get_missing d.topics)),
              )))
unfolding query_missing_topics
query_missing_topics_lem d h fits =
    let short =
      queries-fit (queries d.my_guid (get_missing d.topics))
        (queries_short d.my_guid (get_missing d.topics) fits) in
    (refl, ground (arith, short))
