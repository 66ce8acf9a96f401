-- ===== src/Aps/Message/Tests.antt =====
-- A message that is filled in by its setters and sent, and messages that are loaded.
use kappaio.Common.{
  ℕ, ◌<◌, ◌≡◌, ◌≢◌, refl, List, [], ◌∷◌, ◌++◌, replicate, arith, get_or, ◌+◌, ◌/◌, ◌≤◌,
}
use kappaio.Common.Words.{Bytes, from_le}
use kappaio.Aps.Message.{
  copy_in, copy_out, proxy_rd, offsets, widths, offsets_ext, widths_ext, get_field, set_field,
  af_data_request, data_request,
}
use kappaio.Aps.Message.Fields.{plain, extended, message-fields}
use kappaio.Aps.Message.Send.{af_data_request-copy, data_request-copy}
use kappaio.Aps.Message.Incoming.{
  load_str, offsets_in, widths_in, asdu_in, offsets_ext_in, widths_ext_in, asdu_ext_in,
  load_str-fields, asdu_ext_in-overlap,
}

abbrev empty : List ℕ
empty = replicate 255 0

kr_fields :
    (get_field offsets widths 3 (set_field offsets widths 3 0x0402 empty) ≡ 0x0402)
    × ((g : ℕ)
        → g < 8
        → g ≢ 3
        → get_field offsets widths g (set_field offsets widths 3 0x0402 empty)
          ≡ get_field offsets widths g empty)
unfolding widths
kr_fields = message-fields plain 3 0x0402 empty (omega arith) refl (omega arith)

message-fields_example :
    (get_field offsets_ext widths_ext 1
        (set_field offsets_ext widths_ext 1 0x4b00112233445566 empty)
      ≡ 0x4b00112233445566)
    × ((g : ℕ)
        → g < 10
        → g ≢ 1
        → get_field offsets_ext widths_ext g
            (set_field offsets_ext widths_ext 1 0x4b00112233445566 empty)
          ≡ get_field offsets_ext widths_ext g empty)
unfolding widths_ext
message-fields_example =
    message-fields extended 1 0x4b00112233445566 empty (omega arith) refl (omega arith)

-- To endpoint 8 of the device 0x1234, cluster 6, with a payload of three bytes.
abbrev toggle : List ℕ
toggle = 0x34 ∷ 0x12 ∷ 8 ∷ 1 ∷ 6 ∷ 0 ∷ 9 ∷ 0 ∷ 30 ∷ 3 ∷ 1 ∷ 9 ∷ 2 ∷ []

toggle-Bytes : Bytes toggle
toggle-Bytes = omega arith

af_data_request-copy_run : af_data_request empty toggle ≡ toggle
unfolding get_field proxy_rd copy_out offsets widths from_le
af_data_request-copy_run = af_data_request-copy empty toggle toggle-Bytes (omega arith)

-- The same to a 64-bit address, with the payload `1 ∷ 9 ∷ 2 ∷ []`.
abbrev toggle_ext : List ℕ
toggle_ext =
    3 ∷ 0x66 ∷ 0x55 ∷ 0x44 ∷ 0x33 ∷ 0x22 ∷ 0x11 ∷ 0 ∷ 0x4b ∷ 8 ∷ 0 ∷ 0 ∷ 1 ∷ 6 ∷ 0 ∷ 9 ∷ 0 ∷ 30 ∷ 3
    ∷ 0 ∷ 1 ∷ 9 ∷ 2 ∷ []

toggle_ext-Bytes : Bytes toggle_ext
toggle_ext-Bytes = omega arith

data_request-copy_run : data_request (replicate 255 0xee) toggle_ext ≡ toggle_ext ++ (0xee ∷ [])
unfolding get_field proxy_rd copy_out offsets_ext widths_ext from_le
data_request-copy_run =
    data_request-copy (replicate 255 0xee) toggle_ext toggle_ext-Bytes (omega arith)

-- A report of cluster 6 from endpoint 8 of the device 0x1234, with three bytes of payload.
abbrev report : List ℕ
report =
    20 ∷ 0x44 ∷ 0x81 ∷ 0 ∷ 0 ∷ 6 ∷ 0 ∷ 0x34 ∷ 0x12 ∷ 8 ∷ 1 ∷ 0 ∷ 90 ∷ 0 ∷ 1 ∷ 2 ∷ 3 ∷ 4 ∷ 7 ∷ 3
    ∷ 0x18 ∷ 5 ∷ 10 ∷ []

load_str-fields_run :
    ((f : ℕ)
      → get_or offsets_in f 0 + get_or widths_in f 0 ≤ 20
      → get_field offsets_in widths_in f (load_str empty report)
        ≡ proxy_rd report (3 + get_or offsets_in f 0) (get_or widths_in f 0))
    × (17 + get_field offsets_in widths_in 8 (load_str empty report) ≤ 20
        → asdu_in (load_str empty report)
          ≡ copy_out report 20 (get_field offsets_in widths_in 8 (load_str empty report)))
load_str-fields_run = load_str-fields empty report (omega arith)

report_fields :
    (get_field offsets_in widths_in 2 (load_str empty report) ≡ 0x1234)
    × (asdu_in (load_str empty report) ≡ 0x18 ∷ 5 ∷ 10 ∷ [])
unfolding get_field proxy_rd copy_out copy_in offsets_in widths_in from_le load_str asdu_in
report_fields = (refl, refl)

-- An array whose two length bytes, at 26, are 3 and 0.
abbrev long_report : List ℕ
long_report = replicate 26 0 ++ (3 ∷ 0 ∷ 0x18 ∷ 5 ∷ 10 ∷ [])

long_report-Bytes : Bytes long_report
long_report-Bytes = omega arith

long_report-length : 0 < get_field offsets_ext_in widths_ext_in 10 long_report
unfolding get_field proxy_rd copy_out offsets_ext_in widths_ext_in from_le
long_report-length = omega arith

asdu_ext_in-overlap_run :
    get_or (asdu_ext_in long_report) 0 0
    ≡ get_field offsets_ext_in widths_ext_in 10 long_report / 256
asdu_ext_in-overlap_run = asdu_ext_in-overlap long_report long_report-Bytes long_report-length
