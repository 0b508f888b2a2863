-- ===== src/Service/Launchd.antt =====
-- What an XML reader makes of an element's text, and that it reads back what the two `escape`s of
-- src/service.rs were given.
use runnerctl.Common.{
  Bool, ◌||◌, false, any, ℕ, ◌≡◌, refl, [], ◌∷◌, ◌++◌, Option, none, some, arith, ◌==◌,
  if◌then◌else◌,
}
use runnerctl.Common.Text.{codes, codes_eq}
use runnerctl.Shell.{Text}
use runnerctl.Result.{ok}
use runnerctl.Service.{replace, is_control, escape_xml, escape_plist}
use runnerctl.Service.Systemd.{put}

-- The predefined entities that the code writes.
abbrev pub entity : Text → Option ℕ
entity name =
    if codes_eq name (codes "amp")
    then some b'&'
    else if codes_eq name (codes "lt")
    then some b'<'
    else if codes_eq name (codes "gt")
    then some b'>'
    else none

abbrev pub put_entity : Text → Option (Text × Text) → Option (Text × Text)
put_entity name rest = elim (entity name) [ none ↦ none | some c ↦ put c rest ]

-- XML 1.0 has no place for these two.
abbrev pub is_noncharacter : ℕ → Bool
is_noncharacter c = c == 0xfffe || c == 0xffff

-- The text up to the next tag, with the rest; no control character is taken, since a reader refuses
-- or changes some of them. Behind `&` the name of an entity is gathered up to the semicolon.
unfoldable pub read_text : Option Text → Text → Option (Text × Text)
read_text name [] = none
read_text none (c ∷ s) =
    let reference = read_text (some []) s in
    let plain = put c (read_text none s) in
    if c == b'<'
    then some ([], c ∷ s)
    else if c == b'&'
    then reference
    else if is_control c || is_noncharacter c
    then none
    else plain
read_text (some name) (c ∷ s) =
    let resolved = put_entity name (read_text none s) in
    let longer = read_text (some (name ++ c ∷ [])) s in if c == b';' then resolved else longer

read_text-escape_xml :
    (s rest : Text)
    → any is_control s ≡ false
    → any is_noncharacter s ≡ false
    → read_text none (escape_xml s ++ b'<' ∷ rest) ≡ some (s, b'<' ∷ rest)
unfolding escape_xml replace read_text
read_text-escape_xml [] rest h k = refl
read_text-escape_xml (c ∷ s) rest h k = ground (arith, read_text-escape_xml s rest)

-- launchd's `escape` takes a text without control characters, and if it has none of the two
-- noncharacters U+FFFE and U+FFFF, an XML reader reads the escaped text back as it was, up to the tag
-- behind it.
pub read_text-escape_plist :
    (s rest : Text)
    → any is_control s ≡ false
    → any is_noncharacter s ≡ false
    → (q : Text) × (escape_plist s ≡ ok q)
      × (read_text none (q ++ b'<' ∷ rest) ≡ some (s, b'<' ∷ rest))
unfolding escape_plist
read_text-escape_plist s rest h k = (escape_xml s, rw h refl, read_text-escape_xml s rest h k)
