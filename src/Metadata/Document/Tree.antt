-- ===== src/Metadata/Document/Tree.antt =====
-- The document as a tree of elements in the order of the RFC 7865 schema, and its layout.
use mod_siprec.Base.{
  Bytes, List, Option, [], codes, get_elem?, if◌then◌else◌, none, some, suc, zero, ℕ, ◌++◌, ◌||◌,
  ◌∷◌,
}
use mod_siprec.Metadata.Escape.{escape}
use mod_siprec.Metadata.Aor.{is_set}
use mod_siprec.Metadata.Document.{Options, Participant, Stream, datamode_text, tag_of}

-- Names and values; the values are not escaped.
abbrev pub Attributes : Type 0
Attributes = List (Bytes × Bytes)

mutual
  pub data Xml : Type 0 where
    leaf : Bytes → Attributes → Xml
    text : Bytes → Attributes → Bytes → Xml
    node : Bytes → Attributes → Forest → Xml

  pub data Forest : Type 0 where
    nil : Forest
    cons : Xml → Forest → Forest

unfoldable pub join : Forest → Forest → Forest
join nil ys = ys
join (cons x xs) ys = cons x (join xs ys)

abbrev pub spaces : ℕ → Bytes
spaces zero = []
spaces (suc n) = b' ' ∷ spaces n

unfoldable pub print_attributes : Attributes → Bytes
print_attributes [] = []
print_attributes ((name, value) ∷ attrs) =
    codes " " ++ (name ++ (codes "=\"" ++ (escape value ++ (codes "\"" ++ print_attributes attrs))))

abbrev pub opening : ℕ → Bytes → Attributes → Bytes
opening depth tag attrs = spaces depth ++ (codes "<" ++ (tag ++ print_attributes attrs))

abbrev pub closing : Bytes → Bytes
closing tag = codes "</" ++ (tag ++ codes ">\r\n")

-- An element on lines of its own, at a depth: self-closing, with text, or with children.
unfoldable mutual
  unfolding print_attributes

  pub print : ℕ → Xml → Bytes
  print depth (leaf tag attrs) = opening depth tag attrs ++ codes "/>\r\n"
  print depth (text tag attrs value) =
      opening depth tag attrs ++ (codes ">" ++ (escape value ++ closing tag))
  print depth (node tag attrs xs) =
      opening depth tag attrs
      ++ (codes ">\r\n" ++ (print_all (suc (suc depth)) xs ++ (spaces depth ++ closing tag)))

  pub print_all : ℕ → Forest → Bytes
  print_all depth nil = []
  print_all depth (cons x xs) = print depth x ++ print_all depth xs

abbrev pub value_of : Option Bytes → Bytes
value_of none = []
value_of (some s) = s

abbrev pub child : Bytes → Option Bytes → Forest
child tag value = if is_set value then cons (text tag [] (value_of value)) nil else nil

abbrev pub group_elements : Options → Forest
group_elements opts =
    let attrs = (codes "group_id", value_of opts.group_id) ∷ [] in
    if is_set opts.group_id
    then (if is_set opts.associate_time_utc
        then cons
            (node (codes "group") attrs (child (codes "associate-time") opts.associate_time_utc))
            nil
        else cons (leaf (codes "group") attrs) nil)
    else nil

abbrev pub session_children : Options → Forest
session_children opts = join (child (codes "reason") opts.session_reason) (
    join (child (codes "group-ref") opts.group_id)
      (child (codes "start-time") opts.associate_time_utc))

abbrev pub session_element : Options → Xml
session_element opts =
    let attrs = (codes "session_id", value_of opts.session_id) ∷ [] in
    if (is_set opts.session_reason || is_set opts.group_id) || is_set opts.associate_time_utc
    then node (codes "session") attrs (session_children opts)
    else leaf (codes "session") attrs

-- An element whose only child is there if its text is set.
abbrev pub with_child : Bytes → Attributes → Bytes → Option Bytes → Xml
with_child tag attrs name value =
    if is_set value
    then node tag attrs (cons (text name [] (value_of value)) nil)
    else leaf tag attrs

abbrev pub participant_element : Participant → Xml
participant_element p =
    node (codes "participant") ((codes "participant_id", value_of p.participant_id) ∷ []) (
      cons
        (with_child (codes "nameID") ((codes "aor", value_of p.aor) ∷ []) (codes "name")
          p.display_name)
        nil)

abbrev pub stream_element : Options → Stream → Xml
stream_element opts s =
    with_child (codes "stream")
      ((codes "stream_id", value_of s.stream_id)
        ∷ (codes "session_id", value_of opts.session_id)
        ∷ [])
      (codes "label") s.label

abbrev pub session_assoc_element : Options → Participant → Xml
session_assoc_element opts p =
    with_child (codes "participantsessionassoc")
      ((codes "participant_id", value_of p.participant_id)
        ∷ (codes "session_id", value_of opts.session_id)
        ∷ [])
      (codes "associate-time") opts.associate_time_utc

-- One element for the participant that the stream belongs to.
abbrev pub stream_assoc_element : Stream → Option Participant → Forest
stream_assoc_element s none = nil
stream_assoc_element s (some p) =
    cons
      (node (codes "participantstreamassoc")
        ((codes "participant_id", value_of p.participant_id) ∷ [])
        (cons (text (tag_of s.mode) [] (value_of s.stream_id)) nil))
      nil

abbrev pub elements {ℓ} : {A : Type ℓ} → (A → Forest) → List A → Forest
elements f [] = nil
elements f (x ∷ xs) = join (f x) (elements f xs)

abbrev pub document : Options → Xml
document opts =
    node (codes "recording") ((codes "xmlns", codes "urn:ietf:params:xml:ns:recording:1") ∷ []) (
      cons (text (codes "datamode") [] (datamode_text opts.datamode)) (
        join (group_elements opts) (
          cons (session_element opts) (
            join (elements (λ p. cons (participant_element p) nil) opts.participants) (
              join (elements (λ s. cons (stream_element opts s) nil) opts.streams) (
                join (elements (λ p. cons (session_assoc_element opts p) nil) opts.participants) (
                  elements
                    (λ s. stream_assoc_element s (get_elem? opts.participants s.participant_idx))
                    opts.streams)))))))
