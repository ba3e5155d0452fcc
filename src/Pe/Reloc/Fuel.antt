-- ===== src/Pe/Reloc/Fuel.antt =====
-- The loop of pe_reloc_apply ends: the fuel of the model is always enough.
