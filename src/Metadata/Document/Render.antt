-- ===== src/Metadata/Document/Render.antt =====
-- The calls of `siprec_metadata_build` write the printed tree, element by element.
use mod_siprec.Base.{
  Bool-cases, Bytes, List, Option, [], append-nil, append_assoc, codes, get_elem?, inl, inr, none,
  refl, some, suc, sym, ℕ, ◌++◌, ◌||◌, ◌∙◌, ◌∷◌, ◌≡◌,
}
use mod_siprec.Sb.Concat.{Op, concat, concat-append}
use mod_siprec.Metadata.Escape.{concat-escape_calls, escape, xml_escape_into}
use mod_siprec.Metadata.Aor.{is_set}
use mod_siprec.Metadata.Document.{
  Datamode, Mode, Options, Participant, Stream, build_calls, complete, datamode_text, for_each,
  group_calls, partial, participant_calls, prolog, recv, send, session_assoc_calls, session_calls,
  session_child, stream_assoc_calls, stream_assoc_of, stream_calls,
}
use mod_siprec.Metadata.Document.Tree.{
  Attributes, Forest, Xml, child, closing, cons, document, elements, group_elements, join, nil,
  node, opening, participant_element, print, print_all, print_attributes, session_assoc_element,
  session_element, spaces, stream_assoc_element, stream_element, text, value_of,
}

concat-xml_escape_into : (o : Option Bytes) → concat (xml_escape_into o) ≡ escape (value_of o)
concat-xml_escape_into none = unfold escape in refl
concat-xml_escape_into (some s) = concat-escape_calls s

ruleset layout = (concat-append, concat-xml_escape_into, append_assoc)

print_all-join :
    (depth : ℕ) (xs ys : Forest)
    → print_all depth (join xs ys) ≡ print_all depth xs ++ print_all depth ys
unfolding print_all join
print_all-join depth nil ys = refl
print_all-join depth (cons x xs) ys =
    rw (print_all-join depth xs ys) (sym (append_assoc (print depth x) _ _))

node-print :
    (depth : ℕ) (tag : Bytes) (attrs : Attributes) (xs : Forest)
    → print depth (node tag attrs xs)
      ≡ opening depth tag attrs
        ++ (codes ">\r\n" ++ (print_all (suc (suc depth)) xs ++ (spaces depth ++ closing tag)))
unfolding print_all
node-print depth tag attrs xs = refl

text-print :
    (depth : ℕ) (tag : Bytes) (attrs : Attributes) (value : Bytes)
    → print depth (text tag attrs value)
      ≡ opening depth tag attrs ++ (codes ">" ++ (escape value ++ closing tag))
unfolding print_all
text-print depth tag attrs value = refl

escape-datamode_text : (d : Datamode) → escape (datamode_text d) ≡ datamode_text d
unfolding escape
escape-datamode_text complete = refl
escape-datamode_text partial = refl

abbrev namespace : Bytes
namespace = codes "urn:ietf:params:xml:ns:recording:1"

recording-print :
    print_attributes ((codes "xmlns", namespace) ∷ [])
    ≡ codes " xmlns=\"urn:ietf:params:xml:ns:recording:1\""
unfolding print_attributes escape
recording-print = refl

no_attributes-print : print_attributes [] ≡ []
unfolding print_attributes
no_attributes-print = refl

cons-print :
    (depth : ℕ) (x : Xml) (xs : Forest)
    → print_all depth (cons x xs) ≡ print depth x ++ print_all depth xs
unfolding print_all
cons-print depth x xs = refl

participant-print :
    (p : Participant) → concat (participant_calls p) ≡ print 2 (participant_element p)
unfolding print_all participant_calls
participant-print p = elim (Bool-cases (is_set p.display_name)) [
  | inl there ↦ rw there (simp layout)
  | inr missing ↦ rw missing (simp layout)
]

module _ (opts : Options) where
  group-print : concat (group_calls opts) ≡ print_all 2 (group_elements opts)
  unfolding print_all group_calls
  group-print = elim (Bool-cases (is_set opts.group_id)) [
    | inl grouped ↦ elim (Bool-cases (is_set opts.associate_time_utc)) [
      | inl timed ↦ rw (grouped, timed) (simp layout)
      | inr untimed ↦ rw (grouped, untimed) (simp layout)
    ]
    | inr ungrouped ↦ rw ungrouped
  ]

  reason-print :
      (o : Option Bytes)
      → concat (session_child (codes "    <reason>") (codes "</reason>\r\n") o)
        ≡ print_all 4 (child (codes "reason") o)
  unfolding print_all session_child
  reason-print o = elim (Bool-cases (is_set o)) [
    | inl there ↦ rw there (simp layout)
    | inr missing ↦ rw missing
  ]

  group_ref-print :
      (o : Option Bytes)
      → concat (session_child (codes "    <group-ref>") (codes "</group-ref>\r\n") o)
        ≡ print_all 4 (child (codes "group-ref") o)
  unfolding print_all session_child
  group_ref-print o = elim (Bool-cases (is_set o)) [
    | inl there ↦ rw there (simp layout)
    | inr missing ↦ rw missing
  ]

  start_time-print :
      (o : Option Bytes)
      → concat (session_child (codes "    <start-time>") (codes "</start-time>\r\n") o)
        ≡ print_all 4 (child (codes "start-time") o)
  unfolding print_all session_child
  start_time-print o = elim (Bool-cases (is_set o)) [
    | inl there ↦ rw there (simp layout)
    | inr missing ↦ rw missing
  ]

  session-print : concat (session_calls opts) ≡ print 2 (session_element opts)
  unfolding session_calls
  session-print =
      elim (Bool-cases
        ((is_set opts.session_reason || is_set opts.group_id) || is_set opts.associate_time_utc)) [
          | inl body ↦ rw body (
              simp
                (
                  layout, reason-print, group_ref-print, start_time-print, print_all-join,
                  node-print,
                )
                (unfold print_attributes in simp layout))
          | inr bare ↦ rw bare (unfold print_all in simp layout)
        ]

  stream-print : (s : Stream) → concat (stream_calls opts s) ≡ print 2 (stream_element opts s)
  unfolding print_all stream_calls
  stream-print s = elim (Bool-cases (is_set s.label)) [
    | inl there ↦ rw there (simp layout)
    | inr missing ↦ rw missing (simp layout)
  ]

  session_assoc-print :
      (p : Participant)
      → concat (session_assoc_calls opts p) ≡ print 2 (session_assoc_element opts p)
  unfolding print_all session_assoc_calls
  session_assoc-print p = elim (Bool-cases (is_set opts.associate_time_utc)) [
    | inl there ↦ rw there (simp layout)
    | inr missing ↦ rw missing (simp layout)
  ]

  stream_assoc_of-print :
      (s : Stream) (m : Mode) (o : Option Participant)
      → s.mode ≡ m
      → concat (stream_assoc_of s o) ≡ print_all 2 (stream_assoc_element s o)
  unfolding print_all
  stream_assoc_of-print s m none e = refl
  stream_assoc_of-print s send (some p) e = rw e (simp layout)
  stream_assoc_of-print s recv (some p) e = rw e (simp layout)

  for_each-print {ℓ} :
      {A : Type ℓ} (f : A → List Op) (g : A → Forest)
      → ((x : A) → concat (f x) ≡ print_all 2 (g x))
      → (xs : List A) → concat (for_each f xs) ≡ print_all 2 (elements g xs)
  for_each-print f g h [] = unfold print_all in refl
  for_each-print f g h (x ∷ xs) =
      rw (concat-append (f x), h x, for_each-print f g h xs, print_all-join 2 (g x))

  single : (x : Xml) {t : Bytes} → t ≡ print 2 x → t ≡ print_all 2 (cons x nil)
  unfolding print_all
  single x e = e ∙ sym (append-nil _)

  participants-print :
      (ps : List Participant)
      → concat (for_each participant_calls ps)
        ≡ print_all 2 (elements (λ p. cons (participant_element p) nil) ps)
  participants-print = for_each-print _ _ λ p. single (participant_element p) (participant-print p)

  streams-print :
      (ss : List Stream)
      → concat (for_each (stream_calls opts) ss)
        ≡ print_all 2 (elements (λ s. cons (stream_element opts s) nil) ss)
  streams-print = for_each-print _ _ λ s. single (stream_element opts s) (stream-print s)

  session_assocs-print :
      (ps : List Participant)
      → concat (for_each (session_assoc_calls opts) ps)
        ≡ print_all 2 (elements (λ p. cons (session_assoc_element opts p) nil) ps)
  session_assocs-print =
      for_each-print _ _ λ p. single (session_assoc_element opts p) (session_assoc-print p)

  stream_assocs-print :
      (ss : List Stream)
      → concat (for_each (stream_assoc_calls opts) ss)
        ≡ print_all 2 (
            elements
              (λ s. stream_assoc_element s (get_elem? opts.participants s.participant_idx))
              ss)
  unfolding stream_assoc_calls
  stream_assocs-print = for_each-print _ _ λ s. stream_assoc_of-print s s.mode _ refl

  -- What the calls write in all.
  pub concat-build_calls : concat (build_calls opts) ≡ prolog ++ print 0 (document opts)
  unfolding build_calls
  concat-build_calls = simp (
    layout, group-print, session-print, participants-print, streams-print, session_assocs-print,
    stream_assocs-print, node-print, cons-print, print_all-join, text-print, escape-datamode_text,
    recording-print, no_attributes-print,
  )
