-- ===== src/Client/Changes.antt =====
-- The connections of a client, after a change in the directory.
use general_tools.Common.{
  subst, text_eq_iff, text_eq_refl, ℕ, zero, suc, ◌+◌, ◌≡◌, ◌↔◌, ◌∙◌, append-nil, refl, ap, Bool,
  true, false, ◌&&◌, ◌||◌, not, List, [], ◌∷◌, ◌++◌, Text, text_eq, all, if◌then◌else◌, ok, arith,
  Bool-cases, inl, inr,
}
use general_tools.Common.OrderedMap.{OrderedSet, member, add as add_key, member-add, member-remove}
use general_tools.TopicStore.{GuidTopicMap}
use general_tools.Client.{
  Client, Action, connects, disconnects, notifies, notify, done, undefined, connect, connect_new,
  disconnect, disconnect_gone, addresses_of, on_directory_topics_changed,
}

-- How often a list of actions connects to an address, and how often it disconnects from one.
abbrev pub connections : Text → List Action → ℕ
connections a [] = 0
connections a (connects b ∷ actions) = (if text_eq b a then 1 else 0) + connections a actions
connections a (disconnects b ∷ actions) = connections a actions
connections a (notifies h name ∷ actions) = connections a actions

-- The set of addresses, and what is done, with no address refused.
abbrev union : OrderedSet → List Text → OrderedSet
union old [] = old
union old (a ∷ news) = union (if member a old then old else add_key a old) news

abbrev told : ℕ → Text → OrderedSet → List Text → List Action
told h name old [] = []
told h name old (a ∷ news) =
    let later = told h name (if member a old then old else add_key a old) news in
    if member a old then later else connects a ∷ notify h name ++ later

module _ (refuses : Text → Bool) (accepts : (a : Text) → refuses a ≡ false) where
  connect_new-union :
      (c : Client) (news : List Text)
      → connect_new refuses c news
        ≡ ok (
          record c { addresses = union c.addresses news },
          told c.on_connect c.topic_name c.addresses news,
        )
  unfolding connect_new connect
  connect_new-union c [] = refl
  connect_new-union c (a ∷ news) = elim (Bool-cases (member a c.addresses)) [
    | inl old ↦ ground (arith, old, connect_new-union c news)
    | inr new ↦
        let later = connect_new-union (record c { addresses = add_key a c.addresses }) news in
        ground (arith, new, accepts a, later)
  ]

text_eq-member : (a b : Text) (s : OrderedSet) → text_eq a b ≡ true → member a s ≡ member b s
text_eq-member a b s e = ap (λ t. member t s) ((text_eq_iff a b).0 e)

member-eq :
    (a b : Text) (s : OrderedSet) → text_eq a b ≡ true → member a s ≡ true → member b s ≡ true
member-eq a b s e m = subst (λ t. member t s ≡ true) ((text_eq_iff a b).0 e) m

member-union :
    (b : Text) (old : OrderedSet) (news : List Text)
    → member b (union old news) ≡ (member b news || member b old)
unfolding member
member-union b old [] = refl
member-union b old (a ∷ news) = elim (Bool-cases (member a old)) [
  | inl m ↦ ground (arith, m, member-union b old news, member-eq a b old)
  | inr new ↦ ground (arith, new, member-union b (add_key a old) news, member-add b a old)
]

connections-notify :
    (a : Text) (h : ℕ) (name : Text) (actions : List Action)
    → connections a (notify h name ++ actions) ≡ connections a actions
connections-notify a zero name actions = refl
connections-notify a (suc h) name actions = ground arith

connections-told :
    (b : Text) (h : ℕ) (name : Text) (old : OrderedSet) (news : List Text)
    → connections b (told h name old news) ≡ (if member b news && not (member b old) then 1 else 0)
unfolding member
connections-told b h name old [] = refl
connections-told b h name old (a ∷ news) = elim (Bool-cases (member a old)) [
  | inl m ↦ ground (arith, m, connections-told b h name old news, member-eq a b old)
  | inr new ↦
      let ih = connections-told b h name (add_key a old) news in
      let skip = connections-notify b h name (told h name (add_key a old) news) in
      ground (arith, new, ih, skip, member-add b a old, text_eq-member a b old)
]

all-add : (p : Text → Bool) (a : Text) (s : OrderedSet) → p a ≡ true → all p (add_key a s) ≡ all p s
unfolding add_key
all-add p a [] e = ground (arith, e)
all-add p a (j ∷ s) e = ground (arith, e, all-add p a s e)

all-union :
    (p : Text → Bool) (old : OrderedSet) (news : List Text)
    → all p news ≡ true
    → all p (union old news) ≡ all p old
all-union p old [] e = refl
all-union p old (a ∷ news) e =
    let head : (p a ≡ true) × (all p news ≡ true) = ground (arith, e) in
    elim (Bool-cases (member a old)) [
      | inl m ↦ ground (arith, m, all-union p old news head.1)
      | inr new ↦
          ground (arith, new, all-union p (add_key a old) news head.1, all-add p a old head.0)
    ]

all-member_cons :
    (n : Text) (more xs : List Text)
    → all (λ a. member a more) xs ≡ true
    → all (λ a. member a (n ∷ more)) xs ≡ true
unfolding member
all-member_cons n more [] e = refl
all-member_cons n more (x ∷ xs) e =
    let parts : (member x more ≡ true) × (all (λ a. member a more) xs ≡ true) = ground (arith, e) in
    ground (arith, parts, all-member_cons n more xs parts.1)

all-member : (xs : List Text) → all (λ a. member a xs) xs ≡ true
all-member [] = refl
all-member (x ∷ xs) =
    let found : member x (x ∷ xs) ≡ true = unfold member in ground (arith, text_eq_refl x) in
    ground (arith, found, all-member_cons x xs xs (all-member xs))

-- The loop that disconnects, over addresses that are connected and still advertised.
disconnect_gone-none :
    (c : Client) (news rest : List Text)
    → all (λ a. member a news) rest ≡ true
    → all (λ a. member a c.addresses) rest ≡ true
    → disconnect_gone c news rest ≡ done (c, [])
unfolding disconnect_gone
disconnect_gone-none c news [] stay here = refl
disconnect_gone-none c news (a ∷ rest) stay here =
    let parts : (member a news ≡ true) × (all (λ b. member b news) rest ≡ true) =
      ground (arith, stay) in
    let parts' : (member a c.addresses ≡ true) × (all (λ b. member b c.addresses) rest ≡ true) =
      ground (arith, here) in
    ground (arith, parts, parts', disconnect_gone-none c news rest parts.1 parts'.1)

-- The same loop, once an address is no more advertised.
disconnect_gone-undefined :
    (c : Client) (news rest : List Text)
    → all (λ a. member a news) rest ≡ false
    → all (λ a. member a c.addresses) rest ≡ true
    → disconnect_gone c news rest ≡ undefined
unfolding disconnect_gone disconnect
disconnect_gone-undefined c news [] gone here = absurd (ground (arith, gone))
disconnect_gone-undefined c news (a ∷ rest) gone here =
    let parts : (member a c.addresses ≡ true) × (all (λ b. member b c.addresses) rest ≡ true) =
      ground (arith, here) in
    elim (Bool-cases (member a news)) [
      | inl stays ↦
          let others : all (λ b. member b news) rest ≡ false = ground (arith, gone, stays) in
          ground (arith, stays, parts, disconnect_gone-undefined c news rest others parts.1)
      | inr erased ↦ ground (arith, erased, parts, member-remove a a c.addresses, text_eq_refl a)
    ]

module _ (refuses : Text → Bool) (accepts : (a : Text) → refuses a ≡ false) (c : Client)
    (topics : GuidTopicMap) where
  whole-member :
      all (λ a. member a (addresses_of topics)) (union c.addresses (addresses_of topics))
      ≡ all (λ a. member a (addresses_of topics)) c.addresses
  whole-member =
      all-union (λ a. member a (addresses_of topics)) c.addresses (addresses_of topics)
        (all-member (addresses_of topics))

  changed-eq :
      all (λ a. member a (addresses_of topics)) c.addresses ≡ true
      → on_directory_topics_changed refuses c topics
        ≡ done (
          record c { addresses = union c.addresses (addresses_of topics) },
          told c.on_connect c.topic_name c.addresses (addresses_of topics),
        )
  unfolding on_directory_topics_changed
  changed-eq stay =
      let news = addresses_of topics in
      let after = union c.addresses news in
      let loop =
        disconnect_gone-none (record c { addresses = after }) news after (whole-member ∙ stay)
          (all-member after) in
      let calls = told c.on_connect c.topic_name c.addresses news in
      ground (arith, connect_new-union refuses accepts c news, loop, append-nil calls)

  changed-undefined :
      all (λ a. member a (addresses_of topics)) c.addresses ≡ false
      → on_directory_topics_changed refuses c topics ≡ undefined
  unfolding on_directory_topics_changed
  changed-undefined gone =
      let news = addresses_of topics in
      let after = union c.addresses news in
      let loop =
        disconnect_gone-undefined (record c { addresses = after }) news after (whole-member ∙ gone)
          (all-member after) in
      ground (arith, connect_new-union refuses accepts c news, loop)

  stays-member :
      (address : Text) (old : OrderedSet)
      → all (λ a. member a (addresses_of topics)) old ≡ true
      → member address old ≡ true
      → member address (addresses_of topics) ≡ true
  unfolding member
  stays-member address [] stay m = absurd (ground (arith, m))
  stays-member address (a ∷ old) stay m =
      let parts : (member a (addresses_of topics) ≡ true)
          × (all (λ a. member a (addresses_of topics)) old ≡ true) =
        ground (arith, stay) in
      elim (Bool-cases (text_eq a address)) [
        | inl e ↦ member-eq a address (addresses_of topics) e parts.0
        | inr ne ↦ stays-member address old parts.1 (ground (arith, m, ne))
      ]

-- A client of a topic becomes connected to all servers of the topic: while every address that it is
-- connected to is still one of the topic's and zmq takes each `connect`, a change in the directory
-- leaves it connected to exactly the addresses of the topic, after one call of `connect` for each
-- address that it was not connected to, however many nodes have it, and none for the others.
pub changed-addresses :
    (refuses : Text → Bool) (c : Client) (topics : GuidTopicMap) (address : Text)
    → ((a : Text) → refuses a ≡ false)
    → all (λ a. member a (addresses_of topics)) c.addresses ≡ true
    → (c' : Client) × (actions : List Action) × (on_directory_topics_changed refuses c topics
        ≡ done (c', actions))
      × (member address c'.addresses ≡ member address (addresses_of topics))
      × (connections address actions ≡ (
          if member address (addresses_of topics) && not (member address c.addresses)
          then 1
          else 0))
changed-addresses refuses c topics address accepts stay =
    let news = addresses_of topics in
    let outcome = changed-eq refuses accepts c topics stay in
    let members = member-union address c.addresses news in
    let kept = stays-member refuses accepts c topics address c.addresses stay in
    (
      record c { addresses = union c.addresses news },
      told c.on_connect c.topic_name c.addresses news,
      outcome,
      ground (arith, members, kept),
      connections-told address c.on_connect c.topic_name c.addresses news,
    )

-- The handler of a change has a defined behaviour exactly if no address that the client is connected to
-- is gone: else the loop erases from the set the address that it stands on, and then steps on from it.
-- Condition: zmq takes each `connect`.
pub changed-gone :
    (refuses : Text → Bool) (c : Client) (topics : GuidTopicMap)
    → ((a : Text) → refuses a ≡ false)
    → (on_directory_topics_changed refuses c topics ≡ undefined)
      ↔ (all (λ a. member a (addresses_of topics)) c.addresses ≡ false)
changed-gone refuses c topics accepts =
    elim (Bool-cases (all (λ a. member a (addresses_of topics)) c.addresses)) [
      | inl stay ↦ (
        (λ e. absurd (ground (arith, e, changed-eq refuses accepts c topics stay))),
        (λ e. absurd (ground (arith, e, stay))),
      )
      | inr gone ↦ ((λ e. gone), (λ e. changed-undefined refuses accepts c topics gone))
    ]
