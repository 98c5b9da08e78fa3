-- ===== src/Capture/Launch.antt =====
-- The recorder's command line, crates/openfrag-capture/src/lib.rs. An `OsString` is its bytes.
use openfrag.Common.{ℕ, ◌≡◌, refl, List, [], ◌∷◌, ◌++◌}
use openfrag.Common.Text.{Text, ascii, decimal}

pub data Launch : Type 0 where
  native : Text → List Text → Launch
  flatpak : Text → List Text → Launch

unfoldable pub argv : Launch → List Text
argv (native program args) = program ∷ args
argv (flatpak app_id args) = (ascii "flatpak" ∷ ascii "run" ∷ app_id ∷ []) ++ args

pub data RecorderInstall : Type 0 where
  native_install : Text → RecorderInstall
  flatpak_install : Text → RecorderInstall

pub record ReplayConfig : Type 0 where
  pub capture_target : Text
  pub output_directory : Text
  pub video_codec : Text
  pub audio_codec : Text
  pub buffer_seconds : ℕ

unfoldable pub sixty_second : Text → Text → ReplayConfig
sixty_second capture_target output_directory = record {
  capture_target = capture_target;
  output_directory = output_directory;
  video_codec = ascii "h264";
  audio_codec = ascii "aac";
  buffer_seconds = 60;
}

replay_args : ReplayConfig → List Text
unfolding decimal
replay_args config =
    ascii "-w"
    ∷ config.capture_target
    ∷ ascii "-r"
    ∷ decimal config.buffer_seconds
    ∷ ascii "-c"
    ∷ config.video_codec
    ∷ ascii "-ac"
    ∷ config.audio_codec
    ∷ ascii "-o"
    ∷ config.output_directory
    ∷ []

unfoldable pub replay_launch : RecorderInstall → ReplayConfig → Launch
unfolding replay_args
replay_launch (native_install program) config = native program (replay_args config)
replay_launch (flatpak_install app_id) config = flatpak app_id (replay_args config)

abbrev flatpak_words : List Text
flatpak_words =
    ascii "flatpak"
    ∷ ascii "run"
    ∷ ascii "app"
    ∷ ascii "-w"
    ∷ ascii "screen"
    ∷ ascii "-r"
    ∷ ascii "60"
    ∷ ascii "-c"
    ∷ ascii "h264"
    ∷ ascii "-ac"
    ∷ ascii "aac"
    ∷ ascii "-o"
    ∷ ascii "/clips"
    ∷ []

flatpak_sixty_seconds :
    argv (
      replay_launch
        (flatpak_install (ascii "app"))
        (sixty_second (ascii "screen") (ascii "/clips")))
    ≡ flatpak_words
unfolding argv replay_launch sixty_second
flatpak_sixty_seconds = refl
