-- ===== src/Web/Files.antt =====
-- src/middleware/web/server.ts: the files that the server gives out. The path module and the file
-- system are parameters.
use noaa_satellite_capture.Base.{
  ℕ, String, ◌≡◌, refl, Bool, true, false, Option, none, some, arith, if◌then◌else◌,
}
use noaa_satellite_capture.Base.Strings.{starts_with, includes, drop_bytes}

-- `resolve(dir, filename)` of node:path, `fileExists`, and `readFile`, which may throw.
pub record FileSystem : Type 0 where
  pub resolve : String → String → String
  pub file_exists : String → Bool
  pub read_file : String → Option String

pub data FileAnswer : Type 0 where
  content : String → String → FileAnswer
  refuses : ℕ → String → FileAnswer

module _ (files : FileSystem) where
  unfoldable pub serve_static : String → String → String → FileAnswer
  serve_static dir filename content_type =
      let path = files.resolve dir filename in
      if files.file_exists path
      then elim (files.read_file path) [
        | none ↦ refuses 500 "Internal Server Error"
        | some bytes ↦ content content_type bytes
      ]
      else refuses 404 "Not Found"

  unfoldable pub serve_image : String → String → FileAnswer
  serve_image images_dir filename =
      let path = files.resolve images_dir filename in
      if includes filename ".."
      then refuses 403 "Forbidden"
      else if files.file_exists path
      then elim (files.read_file path) [
        | none ↦ refuses 500 "Internal Server Error"
        | some bytes ↦ content "image/png" bytes
      ]
      else refuses 404 "Not Found"

  -- The image routes; `decode` is `decodeURIComponent`.
  unfoldable pub serve_image_path : (String → String) → String → String → Option FileAnswer
  unfolding serve_image
  serve_image_path decode images_dir path =
      if starts_with path "/images/"
      then some (serve_image images_dir (drop_bytes 8 path))
      else if starts_with path "/api/images/"
      then some (serve_image images_dir (decode (drop_bytes 12 path)))
      else none

  -- A name that contains '..' is refused, and nothing is read for it.
  pub serve_image_refuses :
      (dir name : String)
      → includes name ".." ≡ true
      → serve_image dir name ≡ refuses 403 "Forbidden"
  unfolding serve_image
  serve_image_refuses dir name h = ground arith

  -- The guard does not keep a request in the image directory: where `resolve` gives an absolute
  -- name back as it is, the path `/images/` followed by the absolute name of a file that can be
  -- read and has no '..' in its name is answered with that file, whatever the directory is.
  pub serve_image_path_escapes :
      (decode : String → String) (dir path bytes : String)
      → let name = drop_bytes 8 path in
        starts_with path "/images/" ≡ true
        → ((d : String) → files.resolve d name ≡ name)
        → includes name ".." ≡ false
        → files.file_exists name ≡ true
        → files.read_file name ≡ some bytes
        → serve_image_path decode dir path ≡ some (content "image/png" bytes)
  unfolding serve_image_path
  serve_image_path_escapes decode dir path bytes p a i e r = rw (p, i, a dir, e, r) refl
