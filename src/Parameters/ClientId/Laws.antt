-- ===== src/Parameters/ClientId/Laws.antt =====
-- Parsing and printing client identifiers.
use native.Mathlib.Decide.{ℕ_discrete}
use text.Mathlib.TextEquality.{eq_iff, Char-path}
use text.Mathlib.TextLemmas.{nil-append, cons-append}
use openid4vp.Common.{
  ℕ, String, ◌<>◌, Char, code, ◌≡◌, refl, ap, false, ◌≢◌, ok, [], ◌∷◌, ◌==◌, nat_eq, beq-cons-nil,
  beq_of_ne, string_eq, >>=-eq-ok, ◌⊎◌, inl, inr, ◌↔◌, ◌∙◌, sym, arith,
}
use openid4vp.Parameters.Prefix
use openid4vp.Parameters.Prefix.{ClientIdPrefix, pre_registered}
use openid4vp.Parameters.ClientId.{
  ClientId, splitn_2, from_pieces, new, get_full_id, deserialize, deserialize_pieces,
}

-- The text has no character of that code.
abbrev pub Lacks : ℕ → String → Type 0
Lacks sep String.[] = Unit
Lacks sep (String.◌∷◌ c s) = (code c ≢ sep) × Lacks sep s

splitn_2_of_Lacks : (sep : ℕ) (s : String) → Lacks sep s → splitn_2 sep s ≡ s ∷ []
unfolding splitn_2
splitn_2_of_Lacks sep String.[] h = refl
splitn_2_of_Lacks sep (String.◌∷◌ c s) (p, h) = ground (arith, splitn_2_of_Lacks sep s h)

-- A text is split at its first separator.
splitn_2-append : (a b : String) → Lacks b':' a → splitn_2 b':' (a <> (":" <> b)) ≡ a ∷ b ∷ []
unfolding splitn_2
splitn_2-append String.[] b h = rw nil-append (rw cons-append (rw nil-append))
splitn_2-append (String.◌∷◌ c a) b (p, h) = rw cons-append (ground (arith, splitn_2-append a b h))

abbrev colon : Char
colon = ":"

-- The pieces of a text: itself, or what stands before and after its first colon.
pub data Split (s : String) : Type 0 where
  whole : Lacks b':' s → splitn_2 b':' s ≡ s ∷ [] → Split s
  parted :
      (a b : String) → s ≡ a <> ":" <> b → Lacks b':' a → splitn_2 b':' s ≡ a ∷ b ∷ [] → Split s

Split-here : (c : Char) (s : String) → code c ≡ b':' → Split (String.◌∷◌ c s)
unfolding splitn_2
Split-here c s e =
    let same : c ≡ colon = Char-path c colon e in
    parted "" s (rw nil-append (rw cons-append (rw (nil-append, same)))) tt (ground arith)

Split-later : (c : Char) (s : String) → code c ≢ b':' → Split s → Split (String.◌∷◌ c s)
unfolding splitn_2
Split-later c s differ (whole h e) = whole (differ, h) (ground arith)
Split-later c s differ (parted a b e h q) =
    parted (String.◌∷◌ c a) b (rw cons-append (ap (String.◌∷◌ c) e)) (differ, h) (ground arith)

split : (s : String) → Split s
unfolding splitn_2
split String.[] = whole tt refl
split (String.◌∷◌ c s) = elim (ℕ_discrete (code c) b':') [
  | yes e ↦ Split-here c s e
  | no differ ↦ Split-later c s differ (split s)
]

into_string-Lacks : (p : ClientIdPrefix) → Lacks b':' (Prefix.into_string p)
unfolding Prefix.into_string
into_string-Lacks Prefix.decentralized_identifier = omega arith
into_string-Lacks _ = omega arith

into_string-ne-nil : (p : ClientIdPrefix) (t : String) → (Prefix.into_string p <> t == "") ≡ false
unfolding Prefix.into_string
into_string-ne-nil Prefix.decentralized_identifier t = rw cons-append (beq-cons-nil _ _)
into_string-ne-nil _ t = rw cons-append (beq-cons-nil _ _)

-- Every client identifier is parsed back from the text that it is printed as.
pub new-get_full_id : (c : ClientId) → new (get_full_id c) ≡ ok c
unfolding new get_full_id
new-get_full_id c = rw into_string-ne-nil (
    rw (splitn_2-append (Prefix.into_string c.prefix) c.id (into_string-Lacks c.prefix))
      (rw Prefix.try_from-into_string))

-- What `new` accepts: an identifier with no colon, kept whole and taken as pre-registered, or a
-- known prefix in front of a colon.
abbrev pub Accepts : String → ClientId → Type 0
Accepts s c =
    ((s ≢ "") × Lacks b':' s × (c.id ≡ s) × (c.prefix ≡ pre_registered)) ⊎ (get_full_id c ≡ s)

from_pieces_parted :
    (s a b : String) (c : ClientId)
    → from_pieces s (a ∷ b ∷ []) ≡ ok c
    → get_full_id c ≡ a <> ":" <> b
unfolding from_pieces get_full_id
from_pieces_parted s a b c h =
    let (p, parsed, e) = >>=-eq-ok (Prefix.try_from a) _ h in
    let same = Prefix.into_string_of_try_from a p parsed in ground (arith, same)

from_pieces_whole :
    (s : String) (c : ClientId)
    → from_pieces s (s ∷ []) ≡ ok c
    → (c.id ≡ s) × (c.prefix ≡ pre_registered)
unfolding from_pieces
from_pieces_whole s c h = ground arith

new_pieces :
    (s : String) (c : ClientId) → new s ≡ ok c → (s ≢ "") × (from_pieces s (splitn_2 b':' s) ≡ ok c)
unfolding new
new_pieces s c h = ground (arith, eq_iff s "")

new_sound_at : (s : String) (c : ClientId) → Split s → new s ≡ ok c → Accepts s c
new_sound_at s c (whole lacks e) h =
    let (given, k) = new_pieces s c h in
    let (same, prefix) = from_pieces_whole s c (rw e at k) in inl (given, lacks, same, prefix)
new_sound_at s c (parted a b e lacks q) h =
    let (given, k) = new_pieces s c h in inr (from_pieces_parted s a b c (rw q at k) ∙ sym e)

new_complete : (s : String) (c : ClientId) → Accepts s c → new s ≡ ok c
unfolding new from_pieces
new_complete s c (inl (given, lacks, same, prefix)) =
    rw (beq_of_ne s "" given) (rw (splitn_2_of_Lacks b':' s lacks) (ground arith))
new_complete s c (inr e) = rw (← e) (new-get_full_id c)

-- A text is accepted as a client identifier exactly when it is the printed form of that
-- identifier, or when it has no colon, is not empty and is itself the identifier, which is then
-- pre-registered.
pub new_iff : (s : String) (c : ClientId) → (new s ≡ ok c) ↔ Accepts s c
new_iff s c = (new_sound_at s c (split s), new_complete s c)

deserialize_sound_at :
    (s : String) (c : ClientId) → Split s → deserialize s ≡ ok c → get_full_id c ≡ s
unfolding deserialize
deserialize_sound_at s c (whole lacks e) h = ground arith
deserialize_sound_at s c (parted a b e lacks q) h =
    let k : new (a <> ":" <> b) ≡ ok c = ground arith in
    let (given, pieces) = new_pieces (a <> ":" <> b) c k in
    from_pieces_parted (a <> ":" <> b) a b c (rw (splitn_2-append a b lacks) at pieces) ∙ sym e

-- Deserialisation accepts exactly the printed forms: a text without a colon is refused there,
-- which `new` takes as pre-registered.
pub deserialize_iff : (s : String) (c : ClientId) → (deserialize s ≡ ok c) ↔ (get_full_id c ≡ s)
unfolding deserialize get_full_id deserialize_pieces
deserialize_iff s c = (
  deserialize_sound_at s c (split s),
  λ e. rw (← e) (
      rw (splitn_2-append (Prefix.into_string c.prefix) c.id (into_string-Lacks c.prefix))
        (new-get_full_id c)),
)

-- A printed identifier has a colon.
pub get_full_id-not-Lacks : (s : String) (c : ClientId) → Lacks b':' s → get_full_id c ≢ s
unfolding get_full_id
get_full_id-not-Lacks s c lacks e = cc (
  splitn_2-append (Prefix.into_string c.prefix) c.id (into_string-Lacks c.prefix),
  splitn_2_of_Lacks b':' s lacks,
)
