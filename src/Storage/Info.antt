-- ===== src/Storage/Info.antt =====
-- memory_storage.hpp, `get_buffer_info`: which piece each buffer holds, as text for the log. A text
-- is the list of its bytes, and `lexical_cast` is `boost::lexical_cast<std::string>` of an `int`.
use libtorrent_go.Base.{
  ℕ, ℤ, false, not, List, [], ◌∷◌, ◌++◌, map, ◌==◌, length, length-append, if◌then◌else◌, ◌≡◌, refl,
  ap, ◌∙◌, arith,
}
use mathlib.Core.List.{append_assoc}
use libtorrent_go.Buffer.{Buffer}
use libtorrent_go.Storage.{Storage}

module _ (lexical_cast : ℤ → List ℕ) where
  -- `lexical_cast(index) + ":" + lexical_cast(pi)`
  abbrev pub entry : Buffer → List ℕ
  entry b = lexical_cast b.index ++ b':' ∷ lexical_cast b.pi

  -- `if (!result.empty()) result += " "`
  abbrev spaced : List ℕ → List ℕ
  spaced result = if not (length result == 0) then result ++ b' ' ∷ [] else result

  -- The loop, with its variable `result`.
  unfoldable pub add_entries : List ℕ → List Buffer → List ℕ
  add_entries result [] = result
  add_entries result (b ∷ bs) = add_entries (spaced result ++ entry b) bs

  unfoldable pub get_buffer_info : Storage → List ℕ
  get_buffer_info s = add_entries [] s.buffers

-- Texts joined by single spaces.
abbrev pub unwords : List (List ℕ) → List ℕ
unwords [] = []
unwords (w ∷ []) = w
unwords (w ∷ x ∷ ws) = w ++ b' ' ∷ unwords (x ∷ ws)

module _ (lexical_cast : ℤ → List ℕ) where
  spaced-entry :
      (front : List ℕ) (b : Buffer)
      → spaced lexical_cast (front ++ entry lexical_cast b)
        ≡ (front ++ entry lexical_cast b) ++ b' ' ∷ []
  spaced-entry front b =
      let text = lexical_cast b.index ++ b':' ∷ lexical_cast b.pi in
      let some_text : (length (front ++ text) == 0) ≡ false = ground (
        arith,
        length-append front text,
        length-append (lexical_cast b.index) (b':' ∷ lexical_cast b.pi),
      ) in
      rw some_text refl

  add_entries_lem :
      (front : List ℕ) (b : Buffer) (bs : List Buffer)
      → add_entries lexical_cast (front ++ entry lexical_cast b) bs
        ≡ front ++ unwords (map (entry lexical_cast) (b ∷ bs))
  unfolding add_entries
  add_entries_lem front b [] = refl
  add_entries_lem front b (c ∷ bs) =
      ap (λ r. add_entries lexical_cast (r ++ entry lexical_cast c) bs) (spaced-entry front b)
      ∙ add_entries_lem ((front ++ entry lexical_cast b) ++ b' ' ∷ []) c bs
      ∙ append_assoc (front ++ entry lexical_cast b) (b' ' ∷ []) _
      ∙ append_assoc front (entry lexical_cast b) _

  all_entries :
      (bs : List Buffer) → add_entries lexical_cast [] bs ≡ unwords (map (entry lexical_cast) bs)
  unfolding add_entries
  all_entries [] = refl
  all_entries (b ∷ bs) = add_entries_lem [] b bs

  -- The text is one entry per buffer, in their order, with single spaces between them, for any
  -- `lexical_cast` of integers.
  pub get_buffer_info_lem :
      (s : Storage) → get_buffer_info lexical_cast s ≡ unwords (map (entry lexical_cast) s.buffers)
  unfolding get_buffer_info
  get_buffer_info_lem s = all_entries s.buffers
