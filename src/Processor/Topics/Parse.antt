-- ===== src/Processor/Topics/Parse.antt =====
-- Reading back the parts of a topic.
use peekd.Base.{
  ◌<◌, ◌==◌, refl, if◌then◌else◌, ◌↔◌, arith, suc, length, ap, List, none, ℕ, ◌≡◌, ◌++◌, some, [],
  ◌∷◌, Text, codes,
}
use peekd.Base.Strings.{split, Lacks, split-append}
use peekd.Processor.Topics.{parse_eth2_topic, parts_2_3}

-- "/eth2/<digest>/<name>/<encoding>"
abbrev pub topic_of : Text → Text → Text → Text
topic_of digest name encoding = codes "/eth2/" ++ (digest ++ (b'/' ∷ (name ++ (b'/' ∷ encoding))))

split-topic_of :
    (digest name encoding : Text)
    → Lacks b'/' digest
    → Lacks b'/' name
    → split (topic_of digest name encoding) b'/'
      ≡ [] ∷ codes "eth2" ∷ digest ∷ name ∷ split encoding b'/'
unfolding split
split-topic_of digest name encoding hd hn =
    simp
      (split-append digest (name ++ (b'/' ∷ encoding)) b'/' hd, split-append name encoding b'/' hn)

-- A topic "/eth2/<digest>/<name>/<rest>" reads back as its digest and its name, if these hold no
-- slash.
pub parse_eth2_topic-topic_of :
    (digest name encoding : Text)
    → Lacks b'/' digest
    → Lacks b'/' name
    → parse_eth2_topic (topic_of digest name encoding) ≡ some (digest, name)
unfolding parse_eth2_topic
parse_eth2_topic-topic_of digest name encoding hd hn =
    ap parts_2_3 (split-topic_of digest name encoding hd hn)

abbrev pub slashes : Text → ℕ
slashes [] = 0
slashes (c ∷ s) = let rest = slashes s in if c == b'/' then suc rest else rest

length-split : (s : Text) → length (split s b'/') ≡ suc (slashes s)
unfolding split
length-split [] = refl
length-split (c ∷ s) = ground (arith, length-split s)

parts_2_3-eq-none : (parts : List Text) → (parts_2_3 parts ≡ none) ↔ (length parts < 4)
unfolding parts_2_3
parts_2_3-eq-none [] = grind arith
parts_2_3-eq-none (a ∷ []) = grind arith
parts_2_3-eq-none (a ∷ b ∷ []) = grind arith
parts_2_3-eq-none (a ∷ b ∷ c ∷ []) = grind arith
parts_2_3-eq-none (a ∷ b ∷ c ∷ d ∷ parts) = grind arith

-- Reading a topic panics exactly when it has fewer than three slashes.
pub parse_eth2_topic-eq-none :
    (topic : Text) → (parse_eth2_topic topic ≡ none) ↔ (slashes topic < 3)
unfolding parse_eth2_topic
parse_eth2_topic-eq-none topic =
    let e = parts_2_3-eq-none (split topic b'/') in
    (λ h. omega (arith, e.0 h, length-split topic), λ h. e.1 (omega (arith, length-split topic)))
