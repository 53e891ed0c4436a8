-- ===== src/Input.antt =====
-- The events of input devices, which interfaces.drvli declares, and the codes of types/src/input.rs
-- that other modules use.
use deravel_os.Prelude.{ℕ}

pub record InputEvent : Type 0 where
  pub type_ : ℕ
  pub code : ℕ
  pub value : ℕ

pub record InputAbsinfo : Type 0 where
  pub min : ℕ
  pub max : ℕ

abbrev pub ev_syn : ℕ
ev_syn = 0

abbrev pub ev_key : ℕ
ev_key = 1

abbrev pub ev_rel : ℕ
ev_rel = 2

abbrev pub ev_abs : ℕ
ev_abs = 3

abbrev pub key_esc : ℕ
key_esc = 1

abbrev pub key_q : ℕ
key_q = 16

abbrev pub key_t : ℕ
key_t = 20

abbrev pub key_leftalt : ℕ
key_leftalt = 56

abbrev pub btn_left : ℕ
btn_left = 0x110
