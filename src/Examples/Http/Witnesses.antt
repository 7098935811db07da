-- ===== src/Examples/Http/Witnesses.antt =====
-- The theorems on the HTTP parser at concrete inputs.
use beast.Base.{
  none, false, ◌≤◌, ◌≡◌, ◌||◌, refl, Bool, true, some, Bytes, [], ◌∷◌, ltb, ◌&&◌, if◌then◌else◌,
  length, arith,
}
use beast.Examples.Http.{logger, fresh}
use beast.Http.Chars.{is_tchar, is_text, to_field_char, to_value_char, unhex}
use beast.Http.ChunkEncode.{to_hex}
use beast.Http.ChunkEncode.Laws.{write_buffer-to_hex}
use beast.Http.Chars.Laws.{tchar, text_char, lower, hex_value, tables-classes, unhex_lem}
use beast.Http.Parser.Calls.{is_complete}
use beast.Http.Parser.Fields.{codes}
use beast.Http.Parser.Invariant.Defs.{IsValid}
use beast.Http.Parser.Invariant.Loop.{Octets, Used}
use beast.Http.Parser.Invariant.Write.{
  write_buffer-IsValid, write-IsValid, write_eof-IsValid, total_length,
}
use beast.Http.Parser.Numbers.{SizeRead, write_buffer-hex, sized}
use beast.Http.Parser.Types.{chunk_size0, res_start, req_start}
use beast.Http.Parser.Write.{is_dead, write_buffer, write, write_eof}

abbrev all_octets : Bytes → Bool
all_octets [] = true
all_octets (b ∷ bs) = ltb b 256 && all_octets bs

octets : (bs : Bytes) → all_octets bs ≡ true → Octets bs
octets [] h = tt
octets (b ∷ bs) h = (ground arith, octets bs (ground arith))

fresh-IsValid : IsValid (fresh req_start)
fresh-IsValid = record { cb_ok = refl; pos_ok = tt; length_fits = omega arith; length_ok = tt }

abbrev first_part : Bytes
first_part = codes "PUT /x HTTP/1.1\r\nContent-Length: 3\r\n\r\nd"

abbrev second_part : Bytes
second_part = codes "efGET /"

write-IsValid_example :
    let r = write true logger (fresh req_start) (first_part ∷ second_part ∷ []) in
    IsValid r.0 × (r.1 ≤ total_length (first_part ∷ second_part ∷ []))
write-IsValid_example =
    write-IsValid true logger (fresh req_start) (first_part ∷ second_part ∷ []) fresh-IsValid
      (octets first_part refl, (octets second_part refl, tt))

write_buffer-IsValid_example :
    Used (length first_part) (write_buffer true logger (fresh req_start) first_part)
write_buffer-IsValid_example =
    write_buffer-IsValid true logger (fresh req_start) first_part fresh-IsValid
      (octets first_part refl)

write_eof-IsValid_example :
    let q = write_eof true logger (fresh req_start) in
    IsValid q × ((is_dead q.s || is_complete q.s) ≡ true)
write_eof-IsValid_example = write_eof-IsValid true logger (fresh req_start) fresh-IsValid

write_buffer-hex_example :
    SizeRead
      (fresh req_start)
      0
      1
      []
      (codes "aF0")
      (write_buffer true logger (sized (fresh req_start) 1 []) (codes "aF0"))
write_buffer-hex_example =
    write_buffer-hex true logger (fresh req_start) 1 [] 97 (codes "F0")
      ((omega arith, refl), ((omega arith, refl), ((omega arith, refl), tt))) (omega arith)

tables-classes_example :
    (is_tchar 65 ≡ tchar 65)
    × (is_text 65 ≡ text_char 65)
    × (to_field_char 65 ≡ (if is_tchar 65 then lower 65 else 0))
    × (to_value_char 65 ≡ (if is_text 65 then lower 65 else 0))
tables-classes_example = tables-classes 65 (omega arith)

unhex_lem_example : unhex 200 ≡ (if ltb 200 128 then hex_value 200 else some 0)
unhex_lem_example = unhex_lem 200 (omega arith)

write_buffer-to_hex_example :
    write_buffer false logger (record (fresh res_start) { s = chunk_size0; cb = none }) (to_hex 300)
    ≡ (sized (fresh res_start) 300 (to_hex 300), length (to_hex 300))
write_buffer-to_hex_example = write_buffer-to_hex false logger (fresh res_start) 300 (omega arith)
