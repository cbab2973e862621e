-- ===== src/Carbon/Payload/Call/Kept.antt =====
-- What the bytes of a call of src/carbon.rs keep of it: a section is written as a register or as its
-- arguments, and a call as its sections or as its arguments.
use phantasma_sdk_rs.Prelude.{
  ◌^◌, ◌<◌, ◌≡◌, refl, arith, ℤ, pos, negsuc, List, [], ◌∷◌, Option, some, none, map, length,
  length-map, All,
}
use phantasma_sdk_rs.Stream.{Bytes, write_many}
use phantasma_sdk_rs.Carbon.Wire.{half32, write_carbon_array}
use phantasma_sdk_rs.Carbon.Payload.Call.{
  CallArgSection, write_section_at, write_call_arg_section, MsgCallArgSections, has_sections,
  write_sections, TxMsgCall, write_call_body, write_call, TxMsgCallMulti, write_call_multi,
  call_carbon,
}
use phantasma_sdk_rs.Carbon.Payload.Call.Laws.{
  CallArgSectionFits, CallBodyFits, TxMsgCallFits, TxMsgCallMultiFits,
}

unfoldable pub kept_of_section : ℤ → Bytes → CallArgSection
kept_of_section (negsuc n) args = record { register_offset = negsuc n; args = [] }
kept_of_section (pos n) args = record { register_offset = pos 0; args = args }

unfoldable pub kept_section : CallArgSection → CallArgSection
unfolding kept_of_section
kept_section s = kept_of_section s.register_offset s.args

-- The sections, unless there are none of them.
unfoldable pub kept_of_sections : List CallArgSection → Option MsgCallArgSections
kept_of_sections [] = none
kept_of_sections (s ∷ rest) = some (record { sections = map kept_section (s ∷ rest) })

unfoldable pub kept_sections : Option MsgCallArgSections → Option MsgCallArgSections
unfolding kept_of_sections
kept_sections none = none
kept_sections (some m) = kept_of_sections m.sections

-- The arguments, unless sections take their place.
unfoldable pub kept_args : Bytes → Option MsgCallArgSections → Bytes
kept_args args none = args
kept_args args (some m) = elim m.sections [ [] ↦ args | s ∷ rest ↦ [] ]

unfoldable pub kept_call : TxMsgCall → TxMsgCall
unfolding kept_args kept_sections
kept_call m = record m { args = kept_args m.args m.sections; sections = kept_sections m.sections }

-- An i32, and arguments of which the length is no negative i32. Those of a register are not written.
abbrev pub SectionInRange : ℤ → Bytes → Type 0
SectionInRange (pos n) args = (n < half32) × (length args < half32)
SectionInRange (negsuc n) args = n < half32

abbrev pub CallArgSectionInRange : CallArgSection → Type 0
CallArgSectionInRange s = SectionInRange s.register_offset s.args

abbrev pub SectionsInRange : Bytes → List CallArgSection → Type 0
SectionsInRange args [] = length args < half32
SectionsInRange args (s ∷ rest) =
    (length (s ∷ rest) < half32) × CallArgSectionInRange s × All CallArgSectionInRange rest

abbrev pub CallBodyInRange : Bytes → Option MsgCallArgSections → Type 0
CallBodyInRange args none = length args < half32
CallBodyInRange args (some m) = SectionsInRange args m.sections

-- The ranges of the field types of TxMsgCall, with what is written shorter than 2 ^ 31.
pub record TxMsgCallInRange (m : TxMsgCall) : Type 0 where
  pub module_id : m.module_id < 2 ^ 32
  pub method_id : m.method_id < 2 ^ 32
  pub body : CallBodyInRange m.args m.sections

write-kept_of_section :
    (z : ℤ) (args : Bytes)
    → write_call_arg_section (kept_of_section z args) ≡ write_section_at z args
unfolding write_call_arg_section kept_of_section write_section_at
write-kept_of_section (pos n) args = refl
write-kept_of_section (negsuc n) args = refl

write-kept_section :
    (s : CallArgSection) → write_call_arg_section (kept_section s) ≡ write_call_arg_section s
unfolding kept_section write_call_arg_section
write-kept_section s = write-kept_of_section s.register_offset s.args

write_many-kept :
    (sections : List CallArgSection)
    → write_many write_call_arg_section (map kept_section sections)
      ≡ write_many write_call_arg_section sections
unfolding write_many
write_many-kept [] = refl
write_many-kept (s ∷ rest) = rw (write-kept_section s, write_many-kept rest)

write_sections-kept :
    (s : CallArgSection) (rest : List CallArgSection)
    → write_sections (record { sections = map kept_section (s ∷ rest) })
      ≡ write_sections (record { sections = s ∷ rest })
unfolding write_sections has_sections
write_sections-kept s rest = rw (length-map, write_many-kept (s ∷ rest))

write_call_body-kept :
    (args : Bytes) (sections : Option MsgCallArgSections)
    → write_call_body (kept_args args sections) (kept_sections sections)
      ≡ write_call_body args sections
unfolding write_call_body kept_args kept_sections has_sections
write_call_body-kept args none = refl
write_call_body-kept args (some m) = go m.sections
  where
    go :
        (sections : List CallArgSection)
        → write_call_body
            (kept_args args (some (record { sections = sections })))
            (kept_sections (some (record { sections = sections })))
          ≡ write_call_body args (some (record { sections = sections }))
    go [] = refl
    go (s ∷ rest) = write_sections-kept s rest

-- A call and what is kept of it have the same bytes.
pub write_call-kept_call : (m : TxMsgCall) → write_call (kept_call m) ≡ write_call m
unfolding write_call kept_call
write_call-kept_call m = rw (write_call_body-kept m.args m.sections)

section-Fits : (s : CallArgSection) → CallArgSectionInRange s → CallArgSectionFits (kept_section s)
unfolding kept_section kept_of_section
section-Fits s h = go s.register_offset s.args h
  where
    go :
        (z : ℤ) (args : Bytes) → SectionInRange z args → CallArgSectionFits (kept_of_section z args)
    go (pos n) args (_, h) = h
    go (negsuc n) args h = h

sections-Fit :
    (sections : List CallArgSection)
    → All CallArgSectionInRange sections
    → All CallArgSectionFits (map kept_section sections)
sections-Fit [] h = tt
sections-Fit (s ∷ rest) (h, hs) = (section-Fits s h, sections-Fit rest hs)

body-Fits :
    (args : Bytes) (sections : Option MsgCallArgSections)
    → CallBodyInRange args sections
    → CallBodyFits (kept_args args sections) (kept_sections sections)
unfolding kept_args kept_sections kept_of_sections
body-Fits args none h = h
body-Fits args (some m) h = go m.sections h
  where
    go :
        (sections : List CallArgSection)
        → SectionsInRange args sections
        → CallBodyFits
            (kept_args args (some (record { sections = sections })))
            (kept_sections (some (record { sections = sections })))
    go [] h = h
    go (s ∷ rest) (h, hs, hr) =
        (omega (arith, length-map kept_section rest, h), section-Fits s hs, sections-Fit rest hr)

pub kept_call-Fits : (m : TxMsgCall) → TxMsgCallInRange m → TxMsgCallFits (kept_call m)
unfolding kept_call
kept_call-Fits m h = record {
  module_id = h.module_id;
  method_id = h.method_id;
  body = body-Fits m.args m.sections h.body;
}

unfoldable pub kept_multi : TxMsgCallMulti → TxMsgCallMulti
kept_multi m = record { calls = map kept_call m.calls }

pub record TxMsgCallMultiInRange (m : TxMsgCallMulti) : Type 0 where
  pub calls_short : length m.calls < half32
  pub calls : All TxMsgCallInRange m.calls

write_many-kept_call :
    (calls : List TxMsgCall)
    → write_many write_call (map kept_call calls) ≡ write_many write_call calls
unfolding write_many
write_many-kept_call [] = refl
write_many-kept_call (m ∷ calls) = rw (write_call-kept_call m, write_many-kept_call calls)

pub write_call_multi-kept_multi :
    (m : TxMsgCallMulti) → write_call_multi (kept_multi m) ≡ write_call_multi m
unfolding write_call_multi kept_multi write_carbon_array
write_call_multi-kept_multi m = rw (length-map, write_many-kept_call m.calls)

calls-Fit :
    (calls : List TxMsgCall) → All TxMsgCallInRange calls → All TxMsgCallFits (map kept_call calls)
calls-Fit [] h = tt
calls-Fit (m ∷ calls) (h, hs) = (kept_call-Fits m h, calls-Fit calls hs)

pub kept_multi-Fits :
    (m : TxMsgCallMulti) → TxMsgCallMultiInRange m → TxMsgCallMultiFits (kept_multi m)
unfolding kept_multi
kept_multi-Fits m h = record {
  calls_short = omega (arith, length-map kept_call m.calls, h.calls_short);
  calls = calls-Fit m.calls h.calls;
}
