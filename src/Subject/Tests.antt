-- ===== src/Subject/Tests.antt =====
-- A subject with two observers, at which the theorem applies: the second one throws.
use pondsocket.Prelude.{String, List, [], ◌∷◌, ◌==◌, if◌then◌else◌, false}
use pondsocket.Subject.{Subject, Reaction, returned, raised}

abbrev react : String → String → Reaction String String
react o m = if o == "b" then raised ("half" ∷ []) "broken" else returned (m ∷ [])

abbrev log : String → String → List String
log x o = x ∷ []

abbrev two : Subject String
two = record { is_closed = false; observers = (0, "a") ∷ (1, "b") ∷ []; next_token = 2 }

abbrev three : Subject String
three = record {
  is_closed = false;
  observers = (0, "a") ∷ (1, "b") ∷ (2, "c") ∷ [];
  next_token = 3;
}
