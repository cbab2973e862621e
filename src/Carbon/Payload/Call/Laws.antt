-- ===== src/Carbon/Payload/Call/Laws.antt =====
-- Canonical calls are read as they were written: with arguments and no list of sections, or with
-- sections alone, each of them a register without arguments, or arguments at offset 0.
use phantasma_sdk_rs.Prelude.{
  ℕ, zero, suc, ◌-◌, ◌%◌, ◌^◌, ◌<◌, ◌≡◌, refl, arith, ℤ, pos, negsuc, to_signed, List, [], ◌∷◌,
  Option, some, none, ◌==◌, length, All, All-map, false, lt→ltb,
}
use phantasma_sdk_rs.Stream.{Bytes, ◌▹◌, pure, ◌>>=◌, write, read_many, write_many}
use phantasma_sdk_rs.Stream.Codes.{
  Codes, Codes-bind, Codes-end, Codes-weaken, Codes-write, Codes-many,
}
use phantasma_sdk_rs.Carbon.Wire.{half32, write4, read4}
use phantasma_sdk_rs.Carbon.Wire.Laws.{
  Codes-4, Codes-4u, Codes-8u, Codes-carbon_array, write_length_lem,
}
use phantasma_sdk_rs.Carbon.Payload.Call.{
  CallArgSection, write_bytes_counted, write_section_at, write_call_arg_section,
  read_call_arg_section, MsgCallArgSections, has_sections, neg_i32, write_sections, read_with_count,
  read_sections, TxMsgCall, write_call_body, write_call, read_call_body, read_call, call_carbon,
  TxMsgCallMulti, write_call_multi, read_call_multi, TxMsgSpecialResolution,
  write_special_resolution, read_special_resolution,
}

-- A section stands for a register, or has arguments; the format keeps one of the two.
abbrev pub SectionFits : ℤ → Bytes → Type 0
SectionFits (pos zero) args = length args < half32
SectionFits (negsuc n) [] = n < half32
SectionFits _ _ = ⊥

abbrev pub CallArgSectionFits : CallArgSection → Type 0
CallArgSectionFits s = SectionFits s.register_offset s.args

abbrev pub SectionsFit : List CallArgSection → Type 0
SectionsFit [] = ⊥
SectionsFit (s ∷ rest) =
    (length (s ∷ rest) < half32) × CallArgSectionFits s × All CallArgSectionFits rest

-- Plain arguments, or sections alone: at least one, and fewer than 2 ^ 31.
abbrev pub CallBodyFits : Bytes → Option MsgCallArgSections → Type 0
CallBodyFits args none = length args < half32
CallBodyFits [] (some m) = SectionsFit m.sections
CallBodyFits _ _ = ⊥

-- The ranges of the field types, of a canonical call.
pub record TxMsgCallFits (m : TxMsgCall) : Type 0 where
  pub module_id : m.module_id < 2 ^ 32
  pub method_id : m.method_id < 2 ^ 32
  pub body : CallBodyFits m.args m.sections

bytes_counted_lem :
    (args : Bytes)
    → length args < half32
    → write_bytes_counted args ≡ (write4 (pos (length args)) ▹ write args)
unfolding write_bytes_counted
bytes_counted_lem args h = rw (write_length_lem (length args) h)

Codes-section_at :
    (z : ℤ) (args : Bytes)
    → SectionFits z args
    → Codes 4
        (write_section_at z args)
        read_call_arg_section
        (record { register_offset = z; args = args })
unfolding write_section_at read_call_arg_section
Codes-section_at (pos zero) args h = rw (bytes_counted_lem args h) (
    Codes-weaken 4 (omega arith)
      (Codes-bind _ (Codes-4 (pos (length args)) h) (Codes-end _ (Codes-write args) refl)))
Codes-section_at (pos (suc n)) args h = absurd h
Codes-section_at (negsuc n) [] h = Codes-end _ (Codes-4 (negsuc n) h) refl
Codes-section_at (negsuc n) (b ∷ args) h = absurd h

pub Codes-call_arg_section :
    (s : CallArgSection)
    → CallArgSectionFits s
    → Codes 1 (write_call_arg_section s) read_call_arg_section s
unfolding write_call_arg_section
Codes-call_arg_section s h =
    Codes-weaken 1 (omega arith) (Codes-section_at s.register_offset s.args h)

negated_count : (n : ℕ) → suc n < half32 → neg_i32 (to_signed half32 (suc n % 2 ^ 32)) ≡ negsuc n
unfolding neg_i32
negated_count n h = let e : suc n % 2 ^ 32 ≡ suc n = omega arith in rw (e, lt→ltb (suc n) half32 h)

sections_counted :
    (s : CallArgSection) (rest : List CallArgSection)
    → length (s ∷ rest) < half32
    → write_sections (record { sections = s ∷ rest })
      ≡ (write4 (negsuc (length rest)) ▹ write_many write_call_arg_section (s ∷ rest))
unfolding write_sections has_sections
sections_counted s rest h = rw (negated_count (length rest) h)

with_count_lem :
    (n : ℕ)
    → suc n < half32
    → read_with_count (negsuc n) ≡ (
        read_many (suc n) read_call_arg_section >>= λ sections.
        pure (record { sections = sections }))
unfolding read_with_count
with_count_lem n h = let e : (n == 2 ^ 31 - 1) ≡ false = ground arith in rw e

-- The sections behind their count.
Codes-many_sections :
    (s : CallArgSection) (rest : List CallArgSection)
    → length (s ∷ rest) < half32
    → All CallArgSectionFits (s ∷ rest)
    → Codes 1
        (write_many write_call_arg_section (s ∷ rest))
        (read_with_count (negsuc (length rest)))
        (record { sections = s ∷ rest })
Codes-many_sections s rest h hs = rw (with_count_lem (length rest) h) (
    Codes-weaken 1 (omega arith) (
      Codes-end _
        (Codes-many 1 write_call_arg_section read_call_arg_section (s ∷ rest)
          (All-map Codes-call_arg_section (s ∷ rest) hs))
        refl))

pub Codes-sections :
    (sections : List CallArgSection)
    → SectionsFit sections
    → Codes 1
        (write_sections (record { sections = sections }))
        read_sections
        (record { sections = sections })
unfolding read_sections
Codes-sections [] h = absurd h
Codes-sections (s ∷ rest) (h, hs, hr) = rw (sections_counted s rest h) (
    Codes-weaken 1 (omega arith) (
      Codes-bind _ (Codes-4 (negsuc (length rest)) (omega arith))
        (Codes-many_sections s rest h (hs, hr))))

Codes-call_body :
    (module_id method_id : ℕ) (args : Bytes) (sections : Option MsgCallArgSections)
    → CallBodyFits args sections
    → Codes 1
        (write_call_body args sections)
        (read4 >>= read_call_body module_id method_id)
        (record { module_id = module_id; method_id = method_id; args = args; sections = sections })
unfolding write_call_body read_call_body
Codes-call_body module_id method_id args none h = rw (bytes_counted_lem args h) (
    Codes-weaken 1 (omega arith)
      (Codes-bind _ (Codes-4 (pos (length args)) h) (Codes-end _ (Codes-write args) refl)))
Codes-call_body module_id method_id [] (some m) h = go m.sections h
  where
    go :
        (sections : List CallArgSection)
        → SectionsFit sections
        → Codes 1
            (write_call_body [] (some (record { sections = sections })))
            (read4 >>= read_call_body module_id method_id)
            (record {
              module_id = module_id;
              method_id = method_id;
              args = [];
              sections = some (record { sections = sections });
            })
    go [] h = absurd h
    go (s ∷ rest) (h, hs, hr) = rw (sections_counted s rest h) (
        Codes-weaken 1 (omega arith) (
          Codes-bind _ (Codes-4 (negsuc (length rest)) (omega arith))
            (Codes-end _ (Codes-many_sections s rest h (hs, hr)) refl)))
Codes-call_body module_id method_id (b ∷ args) (some m) h = absurd h

pub Codes-call : (m : TxMsgCall) → TxMsgCallFits m → Codes 1 (write_call m) read_call m
unfolding write_call read_call
Codes-call m h = Codes-weaken 1 (omega arith) (
    Codes-bind _ (Codes-4u m.module_id h.module_id) (
      Codes-bind _ (Codes-4u m.method_id h.method_id)
        (Codes-call_body m.module_id m.method_id m.args m.sections h.body)))

pub record TxMsgCallMultiFits (m : TxMsgCallMulti) : Type 0 where
  pub calls_short : length m.calls < half32
  pub calls : All TxMsgCallFits m.calls

pub Codes-call_multi :
    (m : TxMsgCallMulti) → TxMsgCallMultiFits m → Codes 1 (write_call_multi m) read_call_multi m
unfolding write_call_multi read_call_multi
Codes-call_multi m h = Codes-weaken 1 (omega arith) (
    Codes-end _ (Codes-carbon_array m.calls h.calls_short (All-map Codes-call m.calls h.calls))
      refl)

pub record TxMsgSpecialResolutionFits (m : TxMsgSpecialResolution) : Type 0 where
  pub resolution_id : m.resolution_id < 2 ^ 64
  pub calls_short : length m.calls < half32
  pub calls : All TxMsgCallFits m.calls

pub Codes-special_resolution :
    (m : TxMsgSpecialResolution)
    → TxMsgSpecialResolutionFits m
    → Codes 1 (write_special_resolution m) read_special_resolution m
unfolding write_special_resolution read_special_resolution
Codes-special_resolution m h = Codes-weaken 1 (omega arith) (
    Codes-bind _ (Codes-8u m.resolution_id h.resolution_id) (
      Codes-end _ (Codes-carbon_array m.calls h.calls_short (All-map Codes-call m.calls h.calls))
        refl))
