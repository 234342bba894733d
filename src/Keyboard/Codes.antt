-- ===== src/Keyboard/Codes.antt =====
-- `readcode` on every scan code in every state of the modifiers.
use low_flex_programming.Base.{
  ℕ, ◌+◌, ◌<◌, ◌≡◌, refl, ◌∙◌, Bool, true, false, ◌&&◌, ◌||◌, ◌==◌, ltb, List, [], ◌∷◌, Run, ok,
  panic, fault, arith, ◌>>=◌, ltb→lt, not, bit_and,
}
use low_flex_programming.Base.Tables.{table_holds, table_sound}
use low_flex_programming.Keyboard.{
  readcode, press, release, charcode, swap_case, shiftcode, togglecode, normalmap, shiftmap, ctlmap,
  kbs_dib,
}
use low_flex_programming.Keyboard.Flags.{
  Flags, flags, bits, is_shift, is_ctl, is_alt, toggled, react, react_all, pressed, released,
}

abbrev follows : ℕ → ℕ → Bool
follows s code = elim (readcode s 1 code) [
  | ok r ↦ (r.1 == bits (react (flags s) code)) && ltb r.0 256
  | panic ↦ false
  | fault ↦ false
]

follows_table : table_holds 128 (λ s. table_holds 256 (λ code. follows s code)) ≡ true
unfolding table_holds readcode press release charcode swap_case shiftcode togglecode normalmap
    shiftmap ctlmap flags bits react pressed released
follows_table = refl

follows_all : (s code : ℕ) → s < 128 → code < 256 → follows s code ≡ true
follows_all s code hs hc =
    table_sound 256 (λ code. follows s code) code
      (table_sound 128 (λ s. table_holds 256 (λ code. follows s code)) s follows_table hs) hc

readcode-ready :
    (s st code : ℕ) → (bit_and st kbs_dib == 0) ≡ false → readcode s st code ≡ readcode s 1 code
unfolding readcode
readcode-ready s st code h = rw h

-- With data in the buffer `readcode` returns a byte, and the new `shift` is what the flags say, for
-- every scan code and every state of the modifiers.
pub readcode-react :
    (s st code : ℕ)
    → s < 128
    → code < 256
    → (bit_and st kbs_dib == 0) ≡ false
    → (c : ℕ) × (readcode s st code ≡ ok (c, bits (react (flags s) code))) × (c < 256)
readcode-react s st code hs hc ready =
    let (c, run, byte) =
      from_run (readcode s 1 code) (bits (react (flags s) code)) (follows_all s code hs hc) in
    (c, readcode-ready s st code ready ∙ run, byte)
  where
    from_run :
        (r : Run (ℕ × ℕ)) (b : ℕ)
        → elim r as (λ z. Bool) [ ok r ↦ (r.1 == b) && ltb r.0 256 | panic ↦ false | fault ↦ false ]
          ≡ true
        → (c : ℕ) × (r ≡ ok (c, b)) × (c < 256)
    from_run (ok (c, s')) b h = (c, ground arith, ground arith)
    from_run panic b h = absurd (cc)
    from_run fault b h = absurd (cc)

flags_of :
    (a b c d e f g : Bool)
    → let r : Flags = record {
      shift_down = a;
      ctl_down = b;
      alt_down = c;
      caps_on = d;
      num_on = e;
      scroll_on = f;
      escaped = g;
    } in
      (flags (bits r) ≡ r) × (ltb (bits r) 128 ≡ true)
unfolding flags bits
flags_of a b c d e f g = ground arith

-- The calls of `readcode` for a run of scan codes: the last value of `shift`.
unfoldable pub read_all : ℕ → List ℕ → Run ℕ
read_all s [] = ok s
read_all s (code ∷ codes) = readcode s 1 code >>= λ r. read_all r.1 codes

abbrev pub AreBytes : List ℕ → Type 0
AreBytes [] = Unit
AreBytes (code ∷ codes) = (code < 256) × AreBytes codes

-- After any run of scan codes read by `readcode`, `shift` holds exactly the flags that the codes lead to.
pub read_all-react_all :
    (codes : List ℕ) (f : Flags)
    → AreBytes codes
    → read_all (bits f) codes ≡ ok (bits (react_all f codes))
unfolding read_all react_all
read_all-react_all [] f h = refl
read_all-react_all (code ∷ codes) f h =
    let (back, small) =
      flags_of f.shift_down f.ctl_down f.alt_down f.caps_on f.num_on f.scroll_on f.escaped in
    let (c, run, byte) = readcode-react (bits f) 1 code (ltb→lt _ _ small) h.0 refl in
    rw (run, back) (read_all-react_all codes (react f code) h.1)

react-press : (f : Flags) (key : ℕ) → key < 128 → f.escaped ≡ false → react f key ≡ pressed f key
unfolding react
react-press f key hk he = ground arith

escaped-pressed : (f : Flags) (key : ℕ) → (pressed f key).escaped ≡ false
unfolding pressed
escaped-pressed f key = refl

react-release :
    (f : Flags) (key : ℕ) → key < 96 → f.escaped ≡ false → react f (key + 128) ≡ released f key
unfolding react
react-release f key hk he = ground arith

-- `x || z`, then `&& not z`.
set_and_clear : (x z : Bool) → ((x || z) && not z) ≡ (x && not z)
set_and_clear x z = ground arith

-- The flags once `key` has been pressed and released.
unfoldable pub tapped : Flags → ℕ → Flags
tapped f key = record f {
  shift_down = f.shift_down && not (is_shift key);
  ctl_down = f.ctl_down && not (is_ctl key);
  alt_down = f.alt_down && not (is_alt key);
  caps_on = toggled (key == 0x3a) f.caps_on;
  num_on = toggled (key == 0x45) f.num_on;
  scroll_on = toggled (key == 0x46) f.scroll_on;
  escaped = false;
}

released-pressed : (f : Flags) (key : ℕ) → released (pressed f key) key ≡ tapped f key
unfolding released pressed tapped
released-pressed f key = λ i. record {
  shift_down = set_and_clear f.shift_down (is_shift key) i;
  ctl_down = set_and_clear f.ctl_down (is_ctl key) i;
  alt_down = set_and_clear f.alt_down (is_alt key) i;
  caps_on = toggled (key == 0x3a) f.caps_on;
  num_on = toggled (key == 0x45) f.num_on;
  scroll_on = toggled (key == 0x46) f.scroll_on;
  escaped = false;
}

-- A key with no escape before it that is pressed and released: its modifier is up, its lock has changed, and nothing else.
pub read_all-tapped :
    (f : Flags) (key : ℕ)
    → key < 96
    → f.escaped ≡ false
    → read_all (bits f) (key ∷ (key + 128) ∷ []) ≡ ok (bits (tapped f key))
unfolding react_all
read_all-tapped f key hk he =
    read_all-react_all (key ∷ (key + 128) ∷ []) f (omega arith, (omega arith, tt))
    ∙ rw (
      react-press f key (omega arith) he,
      react-release (pressed f key) key hk (escaped-pressed f key),
      released-pressed f key,
    )
