-- ===== src/Server/Responses/Slots.antt =====
-- What the answer of /record/{id}/stop tells of a login.
use alex_claw.Text.{Text, text_eq}
use alex_claw.Recorder.{Recorder}
