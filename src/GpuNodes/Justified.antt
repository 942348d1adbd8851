-- ===== src/GpuNodes/Justified.antt =====
-- What the answer before each call of the GPU node reconciler was.
