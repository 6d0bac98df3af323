-- ===== src/Buffer/Line.antt =====
-- `LexedLine` of buffer.cc.
use libcody.Prelude.{
  ℕ, zero, suc, ◌-◌, ◌++◌, Option, none, some, Bytes, take, drop, get_elem?, ltb, ◌==◌,
  if◌then◌else◌, ◌>>=◌,
}
use libcody.Buffer.{MessageBuffer}
use libcody.Buffer.Lex.{is_continued}

-- The loop that goes back from `pos` to the beginning of the line.
unfoldable pub line_start : Bytes → ℕ → Option ℕ
line_start buffer zero = some 0
line_start buffer (suc p) =
    let back = line_start buffer p in
    get_elem? buffer p >>= λ c. if c == b'\n' then some (suc p) else back

-- The line from `pos` to `end`, with the mark of a continuation taken off.
abbrev pub line_text : Bytes → ℕ → ℕ → Bytes
line_text buffer pos end = take (end - pos) (drop pos buffer)

-- The bytes of the line that ends at `end`, where its newline stands.
unfoldable pub line_before : Bytes → ℕ → Option Bytes
unfolding line_start is_continued
line_before buffer end = do
  pos ← line_start buffer end
  mark ← is_continued buffer end
  let end' = if mark then end - 2 else end
  if ltb end' pos then none else some (line_text buffer pos end')

-- `LexedLine` appends to `str`; `none` is a read out of bounds.
unfoldable pub lexed_line : MessageBuffer → Bytes → Option Bytes
unfolding line_before
lexed_line b str =
    let text = line_before b.buffer (b.last_bol - 1) >>= λ l. some (str ++ l) in
    if b.last_bol == 0 then some str else text
