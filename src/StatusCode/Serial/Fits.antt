-- ===== src/StatusCode/Serial/Fits.antt =====
-- The text of a status code fits the buffer of the workers.
use edk2_adlink_ampere_altra.Base.{
  ℕ, ◌-◌, ◌<◌, arith, List, [], ◌∷◌, ◌++◌, ◌&&◌, ◌==◌, Option, none, some, length, length-append,
  Bool-cases, inl, inr, bit_and,
}
use edk2_adlink_ampere_altra.Print.{PrintLib, Arg, PrintsWithin, codes, lfcr}
use edk2_adlink_ampere_altra.StatusCode.Serial.{
  StatusData, AssertInfo, DebugInfo, Services, append_text, error_message, string_message,
  debug_message, assert_message, caller_arg, data_arg, undefined_message, plain_message, message,
  assert_info, debug_info,
}

module _ {W : Type 0} (svc : Services W) (print : PrintLib) (within : PrintsWithin print)
    (room : 0 < svc.max_debug_message_length) where
  more_fits :
      (text format : List ℕ) (args : List Arg)
      → length text < svc.max_debug_message_length
      → length (text ++ print.ascii_sprint (svc.max_debug_message_length - length text) format args)
        < svc.max_debug_message_length
  more_fits text format args h =
      let left : ℕ = svc.max_debug_message_length - length text in
      omega (
        arith,
        length-append text (print.ascii_sprint left format args),
        within.sprint_fits left format args (omega arith),
      )

  append_fits :
      (text format : List ℕ) (arg : Option Arg)
      → length text < svc.max_debug_message_length
      → length (append_text svc print text format arg) < svc.max_debug_message_length
  append_fits text format none h = h
  append_fits text format (some arg) h = more_fits text format (arg ∷ []) h

  print_fits :
      (format : List ℕ) (args : List Arg)
      → length (print.ascii_sprint svc.max_debug_message_length format args)
        < svc.max_debug_message_length
  print_fits format args = within.sprint_fits svc.max_debug_message_length format args room

  module _ (code_type value instance_number : ℕ) (caller_id : Option ℕ) where
    error_fits :
        (data_of : Option StatusData)
        → length (error_message svc print code_type value instance_number caller_id data_of)
          < svc.max_debug_message_length
    unfolding error_message
    error_fits data_of = more_fits _ lfcr [] (
        append_fits _ (codes " %x") (data_arg svc print data_of)
          (append_fits _ (codes " %g") (caller_arg svc print caller_id) (print_fits _ _)))

    string_fits :
        (data_of : Option StatusData)
        → length (string_message svc print code_type value instance_number data_of)
          < svc.max_debug_message_length
    unfolding string_message undefined_message
    string_fits none = print_fits _ _
    string_fits (some d) =
        elim (Bool-cases (d.type == svc.string_guid && d.string_type == svc.string_ascii_type)) [
          | inl p ↦ rw p (print_fits _ _)
          | inr p ↦ rw p (print_fits _ _)
        ]

    plain_fits :
        (data_of : Option StatusData)
        → length (plain_message svc print code_type value instance_number caller_id data_of)
          < svc.max_debug_message_length
    unfolding plain_message
    plain_fits data_of = elim (Bool-cases (bit_and code_type svc.type_mask == svc.error_code)) [
      | inl p ↦ rw p (error_fits data_of)
      | inr p ↦ elim (Bool-cases (bit_and code_type svc.type_mask == svc.progress_code)) [
        | inl q ↦ rw (p, q) (print_fits _ _)
        | inr q ↦ rw (p, q) (string_fits data_of)
      ]
    ]

    debug_fits :
        (o : Option DebugInfo) (otherwise : List ℕ)
        → length otherwise < svc.max_debug_message_length
        → length (debug_message svc print o otherwise) < svc.max_debug_message_length
    unfolding debug_message
    debug_fits none otherwise h = h
    debug_fits (some d) otherwise h =
        within.bsprint_fits svc.max_debug_message_length d.format d.marker room

    assert_fits :
        (phase : List ℕ) (o : Option AssertInfo) (otherwise : List ℕ)
        → length otherwise < svc.max_debug_message_length
        → length (assert_message svc print phase o otherwise) < svc.max_debug_message_length
    unfolding assert_message
    assert_fits phase none otherwise h = h
    assert_fits phase (some a) otherwise h = print_fits _ _

    -- On every branch the text of a status code, with the NUL behind it, fits `Buffer`, also where an
    -- error's text is put together from four parts: none of the sizes that the calls of AsciiSPrint
    -- are given runs past the end. This is for a buffer that is not empty.
    pub length-message :
        (phase : List ℕ) (data_of : Option StatusData)
        → length (message svc print phase code_type value instance_number caller_id data_of)
          < svc.max_debug_message_length
    unfolding message
    length-message phase data_of =
        let otherwise = plain_message svc print code_type value instance_number caller_id data_of in
        let debugged = debug_info svc print data_of in
        assert_fits phase (assert_info svc print code_type value data_of)
          (debug_message svc print debugged otherwise)
          (debug_fits debugged otherwise (plain_fits data_of))
