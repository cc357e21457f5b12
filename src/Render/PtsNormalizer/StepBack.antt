-- ===== src/Render/PtsNormalizer/StepBack.antt =====
-- VideoPtsNormalizer behind a repeated PTS: the output can step back.
