-- ===== src/Prelude/Streams.antt =====
-- Server streams of gRPC as a client reads them: messages, and then EOF or an error.
use mathlib.Core.List.{List, [], ◌∷◌}

pub data Stream {ℓ} (A : Type ℓ) : Type ℓ where
  eof : Stream A
  broken : Stream A
  message : A → Stream A → Stream A

module _ {ℓ} {A : Type ℓ} where
  -- the messages before the end
  unfoldable pub messages : Stream A → List A
  messages eof = []
  messages broken = []
  messages (message a s) = a ∷ messages s
