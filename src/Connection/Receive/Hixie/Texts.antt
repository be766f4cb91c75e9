-- ===== src/Connection/Receive/Hixie/Texts.antt =====
-- `handleHixieWebSocket` of src/main/c/Connection.cpp hands on the texts in its buffer.
use seasocks.Prelude.{ℕ, ◌+◌, ◌≡◌, ◌≢◌, List, [], ◌∷◌, ◌++◌, Option, none, some, length, Bytes, All}
use seasocks.Connection.{Connection, M, ◌>>◌, return}
use seasocks.Connection.Receive.{Handler}
use seasocks.Connection.Receive.Hixie.{zero_input_at}

-- A text of hixie has neither of the bytes that end it here.
abbrev pub IsTextByte : ℕ → Type 0
IsTextByte b = (b ≢ 0) × (b ≢ 0xff)

abbrev pub IsText : Bytes → Type 0
IsText text = All IsTextByte text

abbrev pub hixie_frame : Bytes → Bytes
hixie_frame text = 0 ∷ (text ++ (0xff ∷ []))

abbrev pub hixie_frames : List Bytes → Bytes
hixie_frames [] = []
hixie_frames (t ∷ ts) = 0 ∷ (t ++ (0xff ∷ hixie_frames ts))

-- What may be left behind whole messages: nothing, or the beginning of one.
abbrev pub IsPartial : Bytes → Type 0
IsPartial [] = Unit
IsPartial (b ∷ bs) = (b ≡ 0) × All (λ x. x ≢ 0xff) bs

module _ (handler : Option Handler) where
  unfoldable pub deliver_text : Option Handler → Bytes → M (Unit {0})
  deliver_text none text = return tt
  deliver_text (some h) text = h.on_text text

  -- What is to happen on texts that stand from `start` on: the end of each is zeroed in the buffer,
  -- and the handler gets the text.
  unfoldable pub hixie_deliver : ℕ → List Bytes → M (Unit {0})
  unfolding deliver_text
  hixie_deliver start [] = return tt
  hixie_deliver start (t ∷ ts) = do
    zero_input_at (start + 1 + length t)
    deliver_text handler t
    hixie_deliver (start + 1 + length t + 1) ts
