-- ===== src/Driver/Keyboard/Read.antt =====
-- `read_keyboard_char_impl` decodes the codes of the buffer in their order.
use luck_os.Common.{
  ℕ, zero, suc, ◌<◌, ◌≡◌, refl, sym, ap, ◌∙◌, arith, Bool, true, false, some, List, [], ◌∷◌, ◌==◌,
  ◌&&◌, if◌then◌else◌, ◌>>=◌, length, Bool-cases, inl, inr, ℕ_discrete,
}
use luck_os.Common.Int.{ℤ, pos, negsuc}
use luck_os.Driver.Keyboard.{BufferQueue}
use luck_os.Driver.Keyboard.Fifo.{IsValid, codes, dequeue-first, length-codes, codes-empty}
use luck_os.Driver.Keyboard.Reader.{read_from, read_keyboard_char_impl}

module _ {Decoder : Type 0} (process_scancode : Decoder → ℕ → ℕ × Decoder)
    (kh_hasdata kh_ismake : ℕ → Bool) (kh_getchar : ℕ → ℕ) where
  -- Decoding a list of codes behind the result `augchar`: the first character, or -1, and the codes that are left.
  unfoldable pub decode : Decoder → ℕ → List ℕ → ℤ × Decoder × List ℕ
  decode decoder augchar [] =
      if kh_hasdata augchar && kh_ismake augchar
      then (pos (kh_getchar augchar), decoder, [])
      else (negsuc 0, decoder, [])
  decode decoder augchar (code ∷ codes') =
      if kh_hasdata augchar && kh_ismake augchar
      then (pos (kh_getchar augchar), decoder, code ∷ codes')
      else decode (process_scancode decoder code).1 (process_scancode decoder code).0 codes'

  -- Decoding a list of codes from its start.
  unfoldable pub decode_first : Decoder → List ℕ → ℤ × Decoder × List ℕ
  decode_first decoder [] = (negsuc 0, decoder, [])
  decode_first decoder (code ∷ codes') =
      decode (process_scancode decoder code).1 (process_scancode decoder code).0 codes'

  read_from-decode :
      (fuel : ℕ) (decoder : Decoder) (augchar : ℕ) (queue : BufferQueue) (cs : List ℕ)
      → IsValid queue
      → codes queue ≡ cs
      → length cs < fuel
      → (result : ℤ) × (decoder' : Decoder) × (queue' : BufferQueue) × (read_from process_scancode
            kh_hasdata kh_ismake kh_getchar fuel decoder augchar queue
          ≡ some (result, decoder', queue'))
        × IsValid queue'
        × (decode decoder augchar cs ≡ (result, decoder', codes queue'))
  unfolding read_from decode
  read_from-decode zero decoder augchar queue cs valid e less = absurd (omega arith)
  read_from-decode (suc fuel) decoder augchar queue [] valid e less =
      let size : queue.size ≡ 0 = sym (length-codes queue) ∙ ap (length {A = ℕ}) e in
      let test : (queue.size == 0) ≡ true = ground (arith, size) in
      elim (Bool-cases (kh_hasdata augchar && kh_ismake augchar)) [
        | inl made ↦ (
          pos (kh_getchar augchar),
          decoder,
          queue,
          rw made refl,
          valid,
          rw made (ap (λ (t : List ℕ). (pos (kh_getchar augchar), decoder, t)) (sym e)),
        )
        | inr other ↦ (
          negsuc 0,
          decoder,
          queue,
          rw (other, test) refl,
          valid,
          rw other (ap (λ (t : List ℕ). (negsuc 0, decoder, t)) (sym e)),
        )
      ]
  read_from-decode (suc fuel) decoder augchar queue (c ∷ cs) valid e less =
      let size : queue.size ≡ suc (length cs) = sym (length-codes queue) ∙ ap (length {A = ℕ}) e in
      let test : (queue.size == 0) ≡ false = ground (arith, size) in
      elim (Bool-cases (kh_hasdata augchar && kh_ismake augchar)) [
        | inl made ↦ (
          pos (kh_getchar augchar),
          decoder,
          queue,
          rw made refl,
          valid,
          rw made (ap (λ (t : List ℕ). (pos (kh_getchar augchar), decoder, t)) (sym e)),
        )
        | inr other ↦
            let (code, queue₁, run, valid₁, first) =
              dequeue-first queue valid (omega (arith, size)) in
            let both : c ∷ cs ≡ code ∷ codes queue₁ = sym e ∙ first in
            let same : code ≡ c = cc both in
            let rest : codes queue₁ ≡ cs = cc both in
            let (result, decoder', queue', run', valid', done) =
              read_from-decode fuel (process_scancode decoder c).1 (process_scancode decoder c).0
                queue₁ cs valid₁ rest (omega arith) in
            (
              result,
              decoder',
              queue',
              rw (other, test, run, ◌>>=◌, same) run',
              valid',
              rw other done,
            )
      ]

  -- With fuel for the codes of a valid buffer, `read_keyboard_char_impl` returns the first character that the decoder makes
  -- of them in their order, or -1 when it makes none, and leaves the codes behind it.
  pub read_keyboard_char_impl-decode_first :
      (fuel : ℕ) (decoder : Decoder) (queue : BufferQueue)
      → IsValid queue
      → queue.size < fuel
      → (result : ℤ) × (decoder' : Decoder) × (queue' : BufferQueue) × (read_keyboard_char_impl
            process_scancode kh_hasdata kh_ismake kh_getchar fuel decoder queue
          ≡ some (result, decoder', queue'))
        × IsValid queue'
        × (decode_first decoder (codes queue) ≡ (result, decoder', codes queue'))
  unfolding read_keyboard_char_impl decode_first
  read_keyboard_char_impl-decode_first fuel decoder queue valid enough =
      elim (ℕ_discrete queue.size 0) [
        | yes empty ↦
            let test : (queue.size == 0) ≡ true = ground (arith, empty) in
            let nothing : codes queue ≡ [] = codes-empty queue empty in
            (negsuc 0, decoder, queue, rw test refl, valid, rw nothing refl)
        | no some_code ↦
            let test : (queue.size == 0) ≡ false = ground (arith, some_code) in
            let (code, queue₁, run, valid₁, first) =
              dequeue-first queue valid (omega (arith, some_code)) in
            let size : queue.size ≡ suc (length (codes queue₁)) =
              sym (length-codes queue) ∙ ap (length {A = ℕ}) first in
            let (result, decoder', queue', run', valid', done) =
              read_from-decode fuel (process_scancode decoder code).1
                (process_scancode decoder code).0 queue₁ (codes queue₁) valid₁ refl
                (omega (arith, size)) in
            (result, decoder', queue', rw (test, run, ◌>>=◌) run', valid', rw first done)
      ]
