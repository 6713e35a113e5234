-- ===== src/Http.antt =====
-- http.c, http.h, http.fwd.h: a parser of HTTP requests that is fed from an input buffer, and the
-- head of a response to an error.
--
-- The bytes between `*start` and `*end` are a list. What the parser changes is a world, and a
-- function that may give up is a step on it: `stopped` is `return false`, and `starved` says that
-- the fuel of the loop over the headers is spent, which never happens.
pub mod Holds
pub mod Text
mod Header
pub mod Request
pub mod Response
mod Tests
use femc_driver.Prelude.{
  ℕ, Bool, true, false, Option, none, some, List, [], ◌∷◌, String, if◌then◌else◌, tail,
}
use femc_driver.ErrorStack.{
  ErrorStack, push_http_error, push_resource_failure_id, buffer_underflow, fdu_context_http,
}

abbrev pub Bytes : Type 0
Bytes = List ℕ

abbrev pub max_content_length : ℕ
max_content_length = 65536

abbrev pub content_type_size : ℕ
content_type_size = 64

pub data Progress : Type 0 where
  request_line headers content_not_read reading_content done : Progress

-- The enums begin at 1; `fdu_clear_http_request_parser` stores a 0.
pub data Method : Type 0 where
  no_method get head post : Method

pub data Version : Type 0 where
  no_version version_1_0 version_1_1 : Version

pub record ParserState : Type 0 where
  pub progress : Progress
  pub content_loaded : ℕ

pub record MessageState : Type 0 where
  pub method : Method
  pub version : Version
  pub closing : Bool
  pub content_length : ℕ
  pub content_type : Bytes

-- What a callback does to the object that `context` points to and to the error stack. It does not
-- touch the parser and the buffer.
abbrev pub Callback : Type 0 → Type 0
Callback C = C → ErrorStack → Bool × C × ErrorStack

-- The texts of a header are given as zero-terminated strings.
pub record Ops (C : Type 0) : Type 0 where
  pub parse_url : Option (Method → Bytes → Callback C)
  pub parse_version : Option (Version → Callback C)
  pub parse_header : Option (Bytes → Bytes → Callback C)
  pub parse_content : Option (Bytes → Callback C)

pub record Parser (C : Type 0) : Type 0 where
  pub context : C
  pub http_ops : Ops C
  pub parser_state : ParserState
  pub message_state : MessageState

-- The parser, the bytes from `*start` to `*end`, and the error stack.
pub record World (C : Type 0) : Type 0 where
  pub parser : Parser C
  pub buffer : Bytes
  pub stack : ErrorStack

pub data Out (C A : Type 0) : Type 0 where
  went : A → World C → Out C A
  stopped : World C → Out C A
  starved : Out C A

abbrev pub Step : Type 0 → Type 0 → Type 0
Step C A = World C → Out C A

pub record Done : Type 0 where

abbrev pub ok : Done
ok = record {}

abbrev pub bind : {C A B : Type 0} → Out C A → (A → Step C B) → Out C B
bind (went a w) f = f a w
bind (stopped w) f = stopped w
bind starved f = starved

infixl 5 ◌>>=◌ ◌>>◌
abbrev pub ◌>>=◌ : {C A B : Type 0} → Step C A → (A → Step C B) → Step C B
◌>>=◌ m f w = bind (m w) f

abbrev pub ◌>>◌ : {C B : Type 0} → Step C Done → Step C B → Step C B
◌>>◌ m k w = bind (m w) (λ _. k)

unfoldable pub clear_http_request_parser : {C : Type 0} → Parser C → Parser C
clear_http_request_parser p = record p {
  parser_state = record { progress = request_line; content_loaded = 0 };
  message_state = record {
    method = no_method;
    version = no_version;
    closing = true;
    content_length = 0;
    content_type = 0 ∷ tail p.message_state.content_type;
  };
}

unfoldable pub init_http_request_parser : {C : Type 0} → Parser C → C → Ops C → Parser C
unfolding clear_http_request_parser
init_http_request_parser p context http_ops =
    clear_http_request_parser (record p { context = context; http_ops = http_ops })

module _ {C : Type 0} where
  abbrev pub change_message : (MessageState → MessageState) → Step C Done
  change_message f w =
      went ok (record w { parser = record w.parser { message_state = f w.parser.message_state } })

  abbrev pub change_state : (ParserState → ParserState) → Step C Done
  change_state f w =
      went ok (record w { parser = record w.parser { parser_state = f w.parser.parser_state } })

  abbrev pub set_progress : Progress → Step C Done
  set_progress p = change_state (λ s. record s { progress = p })

  abbrev pub set_buffer : Bytes → Step C Done
  set_buffer b w = went ok (record w { buffer = b })

  -- `fde_push_http_error(…); return false;`
  unfoldable pub refuse : {A : Type 0} → String → ℕ → Step C A
  refuse text status w =
      stopped (record w { stack = (push_http_error (some text) status w.stack).1 })

  -- The `break` out of the switch, and the two lines behind it.
  unfoldable pub underflow : {A : Type 0} → Step C A
  underflow w = stopped (record w { stack = (push_resource_failure_id buffer_underflow w.stack).1 })

  unfoldable pub require : Bool → String → ℕ → Step C Done
  require true text status w = went ok w
  require false text status w = refuse text status w

  called : World C → Bool × C × ErrorStack → Out C Done
  called w (true, c, s) = went ok (record w { parser = record w.parser { context = c }; stack = s })
  called w (false, c, s) =
      stopped (record w { parser = record w.parser { context = c }; stack = s })

  -- `if (op && !op(context, …)) return false;`
  unfoldable pub call : Option (Callback C) → Step C Done
  unfolding called
  call none w = went ok w
  call (some f) w = called w (f w.parser.context w.stack)
