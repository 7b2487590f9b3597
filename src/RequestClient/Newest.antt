-- ===== src/RequestClient/Newest.antt =====
-- About `NewestTopic` of a17/dispatch/request_client.cpp.
use mathlib.Core.List.{Mem, mem-cons_self, mem-cons_of_mem}
use general_tools.Common.{
  ℕ, ◌≤◌, ◌≡◌, refl, [], ◌∷◌, Text, arith, ltb, if◌then◌else◌, All, Bool-cases, inl, inr, ok,
  is_empty, false,
}
use general_tools.TopicStore.{DirectoryTopic, GuidTopicMap}
use general_tools.RequestClient.{newest_from, newest_topic}

-- The topic stands in the map, and none of the map is newer.
pub record IsNewest (topics : GuidTopicMap) (t : DirectoryTopic) : Type 0 where
  pub guid : Text
  pub found : Mem (guid, t) topics
  pub newest : All (λ (e : Text × DirectoryTopic). e.1.timestamp ≤ t.timestamp) topics

timestamp-le-newest_from :
    (t : DirectoryTopic) (topics : GuidTopicMap)
    → (t.timestamp ≤ (newest_from t topics).timestamp)
      × All (λ (e : Text × DirectoryTopic). e.1.timestamp ≤ (newest_from t topics).timestamp) topics
unfolding newest_from
timestamp-le-newest_from t [] = (omega arith, tt)
timestamp-le-newest_from t ((guid, u) ∷ topics) =
    let later = if ltb t.timestamp u.timestamp then u else t in
    let ih = timestamp-le-newest_from later topics in
    let bounds : (t.timestamp ≤ (newest_from later topics).timestamp)
        × (u.timestamp ≤ (newest_from later topics).timestamp) =
      latest t u (newest_from later topics).timestamp ih.0 in
    (bounds.0, (bounds.1, ih.1))
  where
    latest :
        (a b : DirectoryTopic) (n : ℕ)
        → (if ltb a.timestamp b.timestamp then b else a).timestamp ≤ n
        → (a.timestamp ≤ n) × (b.timestamp ≤ n)
    latest a b n h = ground arith

found-newest_from :
    (before : GuidTopicMap) (guid : Text) (t : DirectoryTopic) (topics : GuidTopicMap)
    → Mem (guid, t) before
    → ((e : Text × DirectoryTopic) → Mem e topics → Mem e before)
    → (g : Text) × Mem (g, newest_from t topics) before
unfolding newest_from
found-newest_from before guid t [] here sub = (guid, here)
found-newest_from before guid t ((g, u) ∷ topics) here sub =
    elim (Bool-cases (ltb t.timestamp u.timestamp)) [
      | inl newer ↦ rw newer (
          found-newest_from before g u topics (sub (g, u) mem-cons_self)
            (λ e m. sub e (mem-cons_of_mem (g, u) m)))
      | inr older ↦
          rw older
            (found-newest_from before guid t topics here (λ e m. sub e (mem-cons_of_mem (g, u) m)))
    ]

-- `NewestTopic` returns for every map that is not empty, and what it returns stands in the map and
-- is at least as new as every topic in it.
pub newest_topic-IsNewest :
    (topics : GuidTopicMap)
    → is_empty topics ≡ false
    → (t : DirectoryTopic) × (newest_topic topics ≡ ok t) × IsNewest topics t
unfolding newest_topic
newest_topic-IsNewest [] e = cc
newest_topic-IsNewest ((guid, topic) ∷ topics) e =
    let all = (guid, topic) ∷ topics in
    let found = found-newest_from all guid topic all mem-cons_self (λ e m. m) in
    (
      newest_from topic all,
      refl,
      record { guid = found.0; found = found.1; newest = (timestamp-le-newest_from topic all).1 },
    )
