-- ===== src/Metadata/Document.antt =====
-- `validate_options` and `siprec_metadata_build` of siprec_metadata.c. A NULL array is modelled by
-- the empty list: the code treats a NULL and an empty participant array alike.
pub mod Tree
pub mod Render
pub mod Built
use mod_siprec.Base.{
  Bool, Bytes, List, Option, [], all, codes, false, get_elem?, if◌then◌else◌, leb, length, none,
  not, some, ℕ, ◌&&◌, ◌++◌, ◌==◌, ◌||◌, ◌∷◌,
}
use mod_siprec.Sb.{sb_append, sb_appendf, sb_init, sb_take}
use mod_siprec.Sb.Concat.{Op, formatted, run}
use mod_siprec.Metadata.Escape.{xml_escape_into}
use mod_siprec.Metadata.Aor.{is_set}

pub data Mode : Type 0 where
  send recv : Mode

pub data Datamode : Type 0 where
  complete partial : Datamode

pub record Stream : Type 0 where
  pub stream_id : Option Bytes
  pub mode : Mode
  pub participant_idx : ℕ
  pub label : Option Bytes

pub record Participant : Type 0 where
  pub participant_id : Option Bytes
  pub aor : Option Bytes
  pub display_name : Option Bytes

pub record Options : Type 0 where
  pub session_id : Option Bytes
  pub group_id : Option Bytes
  pub associate_time_utc : Option Bytes
  pub datamode : Datamode
  pub session_reason : Option Bytes
  pub participants : List Participant
  pub streams : List Stream

abbrev pub participant_ok : Participant → Bool
participant_ok p = is_set p.participant_id && is_set p.aor

abbrev pub stream_ok : ℕ → Stream → Bool
stream_ok participant_count s = is_set s.stream_id && not (leb participant_count s.participant_idx)

unfoldable pub validate_options : Options → Bool
validate_options opts =
    if not (is_set opts.session_id)
    then false
    else if length opts.participants == 0
    then false
    else if not (all participant_ok opts.participants)
    then false
    else all (stream_ok (length opts.participants)) opts.streams

-- `sb_appendf` of a format without arguments.
abbrev pub lit : Bytes → List Op
lit s = formatted s ∷ []

abbrev pub when : Bool → List Op → List Op
when b calls = if b then calls else []

abbrev pub line_end : Bytes
line_end = codes "\r\n"

pub group_calls : Options → List Op
group_calls opts = when (is_set opts.group_id) (
    lit (codes "  <group group_id=\"")
    ++ (xml_escape_into opts.group_id
        ++ (lit (codes "\"")
            ++ (if is_set opts.group_id && is_set opts.associate_time_utc
                then lit (codes ">\r\n")
                  ++ (lit (codes "    <associate-time>")
                      ++ (xml_escape_into opts.associate_time_utc
                          ++ (lit (codes "</associate-time>\r\n") ++ lit (codes "  </group>\r\n"))))
                else lit (codes "/>\r\n")))))

-- A child element of the session, if its text is set.
pub session_child : Bytes → Bytes → Option Bytes → List Op
session_child start finish value =
    when (is_set value) (lit start ++ (xml_escape_into value ++ lit finish))

pub session_calls : Options → List Op
unfolding session_child
session_calls opts =
    lit (codes "  <session session_id=\"")
    ++ (xml_escape_into opts.session_id
        ++ (lit (codes "\"")
            ++ (if not (
                  (is_set opts.session_reason || is_set opts.group_id)
                  || is_set opts.associate_time_utc)
                then lit (codes "/>\r\n")
                else lit (codes ">\r\n")
                  ++ (session_child (codes "    <reason>") (codes "</reason>\r\n")
                        opts.session_reason
                      ++ (session_child (codes "    <group-ref>") (codes "</group-ref>\r\n")
                            opts.group_id
                          ++ (session_child (codes "    <start-time>") (codes "</start-time>\r\n")
                                opts.associate_time_utc
                              ++ lit (codes "  </session>\r\n")))))))

pub participant_calls : Participant → List Op
participant_calls p =
    lit (codes "  <participant participant_id=\"")
    ++ (xml_escape_into p.participant_id
        ++ (lit (codes "\">\r\n")
            ++ (lit (codes "    <nameID aor=\"")
                ++ (xml_escape_into p.aor
                    ++ (lit (codes "\"")
                        ++ ((if is_set p.display_name
                              then lit (codes ">\r\n      <name>")
                                ++ (xml_escape_into p.display_name
                                    ++ lit (codes "</name>\r\n    </nameID>\r\n"))
                              else lit (codes "/>\r\n"))
                            ++ lit (codes "  </participant>\r\n")))))))

pub stream_calls : Options → Stream → List Op
stream_calls opts s =
    lit (codes "  <stream stream_id=\"")
    ++ (xml_escape_into s.stream_id
        ++ (lit (codes "\" session_id=\"")
            ++ (xml_escape_into opts.session_id
                ++ (lit (codes "\"")
                    ++ (if is_set s.label
                        then lit (codes ">\r\n    <label>")
                          ++ (xml_escape_into s.label ++ lit (codes "</label>\r\n  </stream>\r\n"))
                        else lit (codes "/>\r\n"))))))

pub session_assoc_calls : Options → Participant → List Op
session_assoc_calls opts p =
    lit (codes "  <participantsessionassoc participant_id=\"")
    ++ (xml_escape_into p.participant_id
        ++ (lit (codes "\" session_id=\"")
            ++ (xml_escape_into opts.session_id
                ++ (lit (codes "\"")
                    ++ (if is_set opts.associate_time_utc
                        then lit (codes ">\r\n    <associate-time>")
                          ++ (xml_escape_into opts.associate_time_utc
                              ++ lit
                                  (codes "</associate-time>\r\n  </participantsessionassoc>\r\n"))
                        else lit (codes "/>\r\n"))))))

abbrev pub tag_of : Mode → Bytes
tag_of recv = codes "recv"
tag_of send = codes "send"

-- `continue` on an index out of range.
abbrev pub stream_assoc_of : Stream → Option Participant → List Op
stream_assoc_of s none = []
stream_assoc_of s (some p) =
    lit (codes "  <participantstreamassoc participant_id=\"")
    ++ (xml_escape_into p.participant_id
        ++ (lit (codes "\">\r\n")
            ++ (lit (codes "    <" ++ (tag_of s.mode ++ codes ">"))
                ++ (xml_escape_into s.stream_id
                    ++ (lit (codes "</" ++ (tag_of s.mode ++ codes ">\r\n"))
                        ++ lit (codes "  </participantstreamassoc>\r\n"))))))

pub stream_assoc_calls : Options → Stream → List Op
stream_assoc_calls opts s = stream_assoc_of s (get_elem? opts.participants s.participant_idx)

abbrev pub for_each {ℓ} : {A : Type ℓ} → (A → List Op) → List A → List Op
for_each f [] = []
for_each f (x ∷ xs) = f x ++ for_each f xs

abbrev pub datamode_text : Datamode → Bytes
datamode_text partial = codes "partial"
datamode_text complete = codes "complete"

abbrev pub prolog : Bytes
prolog = codes "<?xml version=\"1.0\" encoding=\"UTF-8\"?>\r\n"

-- All calls of `siprec_metadata_build` on the buffer, in order.
pub build_calls : Options → List Op
build_calls opts =
    lit (prolog ++ codes "<recording xmlns=\"urn:ietf:params:xml:ns:recording:1\">\r\n")
    ++ (lit (codes "  <datamode>" ++ (datamode_text opts.datamode ++ codes "</datamode>\r\n"))
        ++ (group_calls opts
            ++ (session_calls opts
                ++ (for_each participant_calls opts.participants
                    ++ (for_each (stream_calls opts) opts.streams
                        ++ (for_each (session_assoc_calls opts) opts.participants
                            ++ (for_each (stream_assoc_calls opts) opts.streams
                                ++ lit (codes "</recording>\r\n"))))))))

-- `none` is NULL.
unfoldable pub metadata_build : (ℕ → ℕ → Bool) → Options → Option Bytes
unfolding build_calls group_calls session_calls participant_calls stream_calls session_assoc_calls
    stream_assoc_calls validate_options sb_take sb_append sb_appendf sb_init
metadata_build realloc opts =
    if not (validate_options opts) then none else sb_take (run realloc (build_calls opts) sb_init)
